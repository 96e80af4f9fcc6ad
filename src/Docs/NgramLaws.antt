-- ===== src/Docs/NgramLaws.antt =====
-- matchiter.go: ngramDocIterator meets what matchtree.go relies on.
use mathlib.Core.Path.{subst}
use zoekt_archived.Prelude.{
  ℕ, zero, suc, ◌+◌, ◌≤◌, ◌<◌, ◌≡◌, refl, ap, sym, ◌∙◌, inl, inr, ◌⊎◌, Bool, List, [], length,
  get_or, leb, if-intro, arith,
}
use zoekt_archived.MatchTree.{max_u32}
use zoekt_archived.MatchTree.Ready.{IsMatchIterator}
use zoekt_archived.Hits.{HitIterator}
use zoekt_archived.Hits.Laws.{IsHitIterator}
use zoekt_archived.Docs.FileIndex.{next_file_index}
use zoekt_archived.Docs.Gallop.{IsSorted, gallop_lem}
use zoekt_archived.Docs.NgramIter.{
  NgramIter, file_start, next_doc_of_ngram, prepare_ngram, ngram_iterator,
}
use zoekt_archived.Docs.NgramRounds.{at_doc, collect-stop, collect_same, collect-has, Agree}
use zoekt_archived.Docs.NgramHits.{
  HasEnds, IsAt, started, start_small, started-has, rounds, hits_at, left_at, hits_within,
  hits_past,
}

module _ {S : Type 0} (it : HitIterator S) (Ok : S → Type 0) (has : S → ℕ → Bool) (left : S → ℕ)
    (law : IsHitIterator it Ok has left) where
  starts_before :
      (ends : List ℕ) (c d : ℕ)
      → IsSorted ends
      → c < d
      → d < length ends
      → (get_or ends c 0 ≤ file_start ends d) × (file_start ends c ≤ get_or ends c 0)
  starts_before ends c zero sorted lt in_ends = absurd (omega arith)
  starts_before ends zero (suc d) sorted lt in_ends =
      (sorted 0 d (omega arith) (omega arith), omega arith)
  starts_before ends (suc c) (suc d) sorted lt in_ends =
      (sorted (suc c) d (omega arith) (omega arith), sorted c (suc c) (omega arith) (omega arith))

  within_or_past : (d n : ℕ) → (d < n) ⊎ (n ≤ d)
  within_or_past d n = ground arith

  -- A document before the next file has no hits, as these are all behind it.
  behind_lem :
      (i : NgramIter S) (d : ℕ)
      → IsAt it Ok has left law i d
      → d < length i.ends
      → d < next_file_index (it.first i.iter) i.file_idx i.ends
      → get_or i.ends d 0 ≤ it.first i.iter
  behind_lem i d at lt before =
      let e = at.has_ends in
      let next = gallop_lem (it.first i.iter) i.ends e.sorted e.few i.file_idx (at.in_ends lt) in
      elim (within_or_past d i.file_idx) [
        | inl earlier ↦ at.not_passed lt earlier
        | inr from ↦ next.1.1.0 d from before
      ]

  no_hits_lem :
      (i : NgramIter S) (d : ℕ)
      → IsAt it Ok has left law i d
      → d < length i.ends
      → get_or i.ends d 0 ≤ it.first i.iter
      → hits_at it Ok has left law i d ≡ []
  no_hits_lem i d at lt le =
      let e = at.has_ends in
      let bound = e.fits d in
      let (ok, (_, old)) = started-has it Ok has left law i d at.iter_ok e in
      let behind : get_or i.ends d 0 ≤ it.first (started it Ok has left law i d) =
        elim (law.first_hit (started it Ok has left law i d) ok) [
          | inl none_left ↦ omega (arith, none_left, bound)
          | inr hit ↦
              let least =
                law.first_least i.iter (it.first (started it Ok has left law i d)) at.iter_ok
                  (old (it.first (started it Ok has left law i d)) hit) in
              omega (arith, least, le)
        ] in
      (hits_within it Ok has left law i d lt).0
      ∙ collect-stop law i.left_pad i.right_pad i.ends d (start_small it Ok has left law i d e)
          (omega arith) (left (started it Ok has left law i d)) (started it Ok has left law i d)
          (started it Ok has left law i d) behind

  next_doc-IsAt :
      (i : NgramIter S) (d : ℕ)
      → IsAt it Ok has left law i d
      → IsAt it Ok has left law (next_doc_of_ngram it left i).1 d
  unfolding next_doc_of_ngram
  next_doc-IsAt i d at =
      let f = next_file_index (it.first i.iter) i.file_idx i.ends in
      let e = at.has_ends in
      let moved : IsAt it Ok has left law (record i { file_idx = f }) d = record {
        iter_ok = at.iter_ok;
        has_ends = record { sorted = e.sorted; few = e.few; fits = e.fits };
        in_ends = λ lt.
            (gallop_lem (it.first i.iter) i.ends e.sorted e.few i.file_idx (at.in_ends lt)).1.0;
        not_passed = λ lt before. behind_lem i d at lt before;
      } in
      if-intro (λ (r : ℕ × NgramIter S). IsAt it Ok has left law r.1 d) (leb (length i.ends) f)
        (max_u32, record i { file_idx = f }) (f, record i { file_idx = f }) (λ _. moved)
        (λ _. moved)

  next_doc-hits :
      (i : NgramIter S) (d : ℕ)
      → hits_at it Ok has left law (next_doc_of_ngram it left i).1 d
        ≡ hits_at it Ok has left law i d
  unfolding next_doc_of_ngram prepare_ngram
  next_doc-hits i d =
      let f = next_file_index (it.first i.iter) i.file_idx i.ends in
      if-intro
        (λ (r : ℕ × NgramIter S). hits_at it Ok has left law r.1 d ≡ hits_at it Ok has left law i d)
        (leb (length i.ends) f) (max_u32, record i { file_idx = f }) (f, record i { file_idx = f })
        (λ _. refl) (λ _. refl)

  next_doc_skips :
      (i : NgramIter S) (d : ℕ)
      → IsAt it Ok has left law i d
      → d < (next_doc_of_ngram it left i).0
      → hits_at it Ok has left law i d ≡ []
  unfolding next_doc_of_ngram
  next_doc_skips i d at =
      let f = next_file_index (it.first i.iter) i.file_idx i.ends in
      let skip : d < length i.ends → d < f → hits_at it Ok has left law i d ≡ [] =
        λ lt before. no_hits_lem i d at lt (behind_lem i d at lt before) in
      elim (within_or_past d (length i.ends)) [
        | inr past ↦ λ _. (hits_past it Ok has left law i d past).0
        | inl lt ↦
            if-intro (λ (r : ℕ × NgramIter S). d < r.0 → hits_at it Ok has left law i d ≡ [])
              (leb (length i.ends) f) (max_u32, record i { file_idx = f })
              (f, record i { file_idx = f }) (λ ended _. skip lt (ground (arith, ended, lt)))
              (λ _ before. skip lt before)
      ]

  -- What the rounds it Ok has left law at a document leave of the hits.
  rounds-has :
      (i : NgramIter S) (c : ℕ)
      → Ok i.iter
      → HasEnds it Ok has left law i
      → Ok (rounds it Ok has left law i c).1
        × ((p : ℕ)
            → get_or i.ends c 0 ≤ p
            → file_start i.ends c + i.left_pad ≤ p
            → p < max_u32
            → has (rounds it Ok has left law i c).1 p ≡ has i.iter p)
  rounds-has i c ok e =
      let bound = e.fits c in
      let (good, (same, _)) = started-has it Ok has left law i c ok e in
      let (kept, later) =
        collect-has law i.left_pad i.right_pad i.ends c (start_small it Ok has left law i c e)
          (omega arith) (suc (left (started it Ok has left law i c)))
          (started it Ok has left law i c) (started it Ok has left law i c) good in
      (kept, λ p behind ge lt. later p behind ∙ same p ge lt)

  left_at-IsAt :
      (i : NgramIter S) (c d : ℕ)
      → IsAt it Ok has left law i c
      → c < d
      → IsAt it Ok has left law (left_at it Ok has left law i c) d
  left_at-IsAt i c d at lt =
      let e = at.has_ends in
      let state : S → NgramIter S = at_doc law i.left_pad i.right_pad i.ends c in
      let moved : (s : S)
          → Ok s
          → (d < length i.ends → c ≤ length i.ends)
          → IsAt it Ok has left law (state s) d =
        λ s ok bound. record {
          iter_ok = ok;
          has_ends = record { sorted = e.sorted; few = e.few; fits = e.fits };
          in_ends = bound;
          not_passed = λ _ before. absurd (omega arith);
        } in
      elim (within_or_past c (length i.ends)) [
        | inl within ↦
            subst (λ j. IsAt it Ok has left law j d)
              (sym (hits_within it Ok has left law i c within).1)
              (moved (rounds it Ok has left law i c).1 (rounds-has i c at.iter_ok e).0
                (λ _. omega arith))
        | inr past ↦
            subst (λ j. IsAt it Ok has left law j d) (sym (hits_past it Ok has left law i c past).1)
              (moved (started it Ok has left law i c)
                (started-has it Ok has left law i c at.iter_ok e).0 (λ in_ends. omega arith))
      ]

  left_at-hits :
      (i : NgramIter S) (c d : ℕ)
      → IsAt it Ok has left law i c
      → c < d
      → hits_at it Ok has left law (left_at it Ok has left law i c) d
        ≡ hits_at it Ok has left law i d
  left_at-hits i c d at lt =
      let e = at.has_ends in
      let ends = i.ends in
      let state : S → NgramIter S = at_doc law i.left_pad i.right_pad ends c in
      elim (within_or_past d (length ends)) [
        | inr past ↦ elim (within_or_past c (length ends)) [
          | inl within ↦
              ap (λ j. hits_at it Ok has left law j d) (hits_within it Ok has left law i c within).1
              ∙ (hits_past it Ok has left law (state (rounds it Ok has left law i c).1) d past).0
              ∙ sym (hits_past it Ok has left law i d past).0
          | inr all ↦
              ap (λ j. hits_at it Ok has left law j d) (hits_past it Ok has left law i c all).1
              ∙ (hits_past it Ok has left law (state (started it Ok has left law i c)) d past).0
              ∙ sym (hits_past it Ok has left law i d past).0
        ]
        | inl within ↦
            let bound = e.fits d in
            let j = state (rounds it Ok has left law i c).1 in
            let (ok, kept) = rounds-has i c at.iter_ok e in
            let ends_j : HasEnds it Ok has left law j = record {
              sorted = e.sorted;
              few = e.few;
              fits = e.fits;
            } in
            let (ok_j, (same_j, _)) = started-has it Ok has left law j d ok ends_j in
            let (ok_i, (same_i, _)) = started-has it Ok has left law i d at.iter_ok e in
            let (before, starts) = starts_before ends c d e.sorted lt within in
            let agree : Agree law i.left_pad i.right_pad ends d
                (start_small it Ok has left law i d e) (omega arith)
                (started it Ok has left law j d) (started it Ok has left law i d) =
              λ p ge p_lt.
                same_j p ge (omega arith)
                ∙ kept p (omega arith) (omega arith) (omega arith)
                ∙ sym (same_i p ge (omega arith)) in
            ap (λ j. hits_at it Ok has left law j d)
              (hits_within it Ok has left law i c (omega arith)).1
            ∙ (hits_within it Ok has left law j d within).0
            ∙ collect_same law i.left_pad i.right_pad ends d (start_small it Ok has left law i d e)
                (omega arith)
                (suc (left (started it Ok has left law j d))
                  + suc (left (started it Ok has left law i d)))
                (suc (left (started it Ok has left law j d)))
                (suc (left (started it Ok has left law i d))) (started it Ok has left law j d)
                (started it Ok has left law i d) (started it Ok has left law j d)
                (started it Ok has left law i d) (omega arith) (omega arith) (omega arith) ok_j ok_i
                agree
            ∙ sym (hits_within it Ok has left law i d within).0
      ]

  -- ngramDocIterator over such hits meets the laws of a matchIterator.
  pub ngram_iterator-IsMatchIterator :
      IsMatchIterator (ngram_iterator it left) (IsAt it Ok has left law)
  ngram_iterator-IsMatchIterator = record {
    next_ready = next_doc-IsAt;
    next_same = λ i d at. next_doc-hits i d;
    next_skips = next_doc_skips;
    pass_ready = left_at-IsAt;
    pass_same = left_at-hits;
  }
