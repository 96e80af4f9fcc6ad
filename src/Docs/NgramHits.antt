-- ===== src/Docs/NgramHits.antt =====
-- matchiter.go: the hits that ngramDocIterator reports at a document, and the state that it leaves.
use zoekt_archived.Prelude.{
  ℕ, zero, suc, ◌+◌, ◌-◌, ◌%◌, ◌^◌, ◌≤◌, ◌<◌, ◌≡◌, refl, ap, ◌∙◌, Bool, true, false, List, [],
  length, get_or, ltb, leb, if◌then◌else◌, if-intro, arith,
}
use zoekt_archived.MatchTree.{Candidate, max_u32}
use zoekt_archived.Hits.{HitIterator}
use zoekt_archived.Hits.Laws.{IsHitIterator}
use zoekt_archived.Docs.Gallop.{IsSorted}
use zoekt_archived.Docs.NgramIter.{
  NgramIter, file_start, collect, candidates_of_ngram, prepare_ngram,
}
use zoekt_archived.Docs.NgramRounds.{at_doc}

module _ {S : Type 0} (it : HitIterator S) (Ok : S → Type 0) (has : S → ℕ → Bool) (left : S → ℕ)
    (law : IsHitIterator it Ok has left) where
  -- Ends of at most 2^30 files in ascending order, which do not wrap around with the padding.
  pub record HasEnds (i : NgramIter S) : Type 0 where
    pub sorted : IsSorted i.ends
    pub few : length i.ends ≤ 2 ^ 30
    pub fits : (k : ℕ) → get_or i.ends k 0 + i.left_pad + i.right_pad < max_u32

  -- Document d may be the next one: the iterator stands at a file, and no hit of d was passed if that is behind d.
  pub record IsAt (i : NgramIter S) (d : ℕ) : Type 0 where
    pub iter_ok : Ok i.iter
    pub has_ends : HasEnds i
    pub in_ends : d < length i.ends → i.file_idx ≤ length i.ends
    pub not_passed : d < length i.ends → d < i.file_idx → get_or i.ends d 0 ≤ it.first i.iter

  -- The iterator of hits once document d is prepared.
  unfoldable pub started : NgramIter S → ℕ → S
  started i d =
      if ltb 0 (file_start i.ends d)
      then it.next ((file_start i.ends d + i.left_pad + (2 ^ 32 - 1)) % 2 ^ 32) i.iter
      else i.iter

  prepare_ngram-started :
      (i : NgramIter S) (d : ℕ)
      → prepare_ngram it left d i ≡ at_doc law i.left_pad i.right_pad i.ends d (started i d)
  unfolding prepare_ngram started
  prepare_ngram-started i d =
      elim (ltb 0 (file_start i.ends d))
        as (λ b.
          (if b
            then record i {
              iter = it.next ((file_start i.ends d + i.left_pad + (2 ^ 32 - 1)) % 2 ^ 32) i.iter;
              file_idx = d;
            }
            else record i { file_idx = d })
          ≡ at_doc law i.left_pad i.right_pad i.ends d (
              if b
              then it.next ((file_start i.ends d + i.left_pad + (2 ^ 32 - 1)) % 2 ^ 32) i.iter
              else i.iter)) [ true ↦ refl | false ↦ refl ]

  pub start_small :
      (i : NgramIter S) (d : ℕ) → HasEnds i → file_start i.ends d + i.left_pad < max_u32
  start_small i zero e = let bound = e.fits 0 in omega (arith, bound)
  start_small i (suc d) e = let bound = e.fits d in omega (arith, bound)

  -- What is left of the hits once it is prepared.
  pub started-has :
      (i : NgramIter S) (d : ℕ)
      → Ok i.iter
      → HasEnds i
      → Ok (started i d)
        × (((p : ℕ)
              → file_start i.ends d + i.left_pad ≤ p
              → p < max_u32
              → has (started i d) p ≡ has i.iter p)
            × ((p : ℕ) → has (started i d) p ≡ true → has i.iter p ≡ true))
  unfolding started
  started-has i d ok e =
      let start = file_start i.ends d in
      let small = start_small i d e in
      let limit = (start + i.left_pad + (2 ^ 32 - 1)) % 2 ^ 32 in
      if-intro
        (λ s.
          Ok s
          × (((p : ℕ) → start + i.left_pad ≤ p → p < max_u32 → has s p ≡ has i.iter p)
              × ((p : ℕ) → has s p ≡ true → has i.iter p ≡ true)))
        (ltb 0 start) (it.next limit i.iter) i.iter
        (λ pos.
          let more : 0 < start = ground arith in
          (
            law.next_ok i.iter limit ok,
            (
              λ p ge lt. law.next_keeps i.iter limit p ok (omega arith) (omega arith),
              λ p h. law.next_within i.iter limit p ok h,
            ),
          ))
        (λ _. (ok, (λ p ge lt. refl, λ p h. h)))

  -- The rounds at document d, and what they give within the ends.
  abbrev pub rounds : NgramIter S → ℕ → List Candidate × S
  rounds i d =
      collect it left (suc (left (started i d)))
        (at_doc law i.left_pad i.right_pad i.ends d (started i d)) (started i d)

  hits_lem :
      (i : NgramIter S) (d : ℕ)
      → candidates_of_ngram it left (prepare_ngram it left d i) ≡ (
          if leb (length i.ends) d
          then ([], at_doc law i.left_pad i.right_pad i.ends d (started i d))
          else ((rounds i d).0, at_doc law i.left_pad i.right_pad i.ends d (rounds i d).1))
  unfolding candidates_of_ngram
  hits_lem i d = ap (candidates_of_ngram it left) (prepare_ngram-started i d)

  abbrev pub hits_at : NgramIter S → ℕ → List Candidate
  hits_at i d = (candidates_of_ngram it left (prepare_ngram it left d i)).0

  abbrev pub left_at : NgramIter S → ℕ → NgramIter S
  left_at i d = (candidates_of_ngram it left (prepare_ngram it left d i)).1

  pub hits_within :
      (i : NgramIter S) (d : ℕ)
      → d < length i.ends
      → (hits_at i d ≡ (rounds i d).0)
        × (left_at i d ≡ at_doc law i.left_pad i.right_pad i.ends d (rounds i d).1)
  hits_within i d lt =
      let pick : Bool → List Candidate × NgramIter S = λ b.
        if b
        then ([], at_doc law i.left_pad i.right_pad i.ends d (started i d))
        else ((rounds i d).0, at_doc law i.left_pad i.right_pad i.ends d (rounds i d).1) in
      let known : leb (length i.ends) d ≡ false = ground arith in
      (ap (λ r. r.0) (hits_lem i d ∙ ap pick known), ap (λ r. r.1) (hits_lem i d ∙ ap pick known))

  pub hits_past :
      (i : NgramIter S) (d : ℕ)
      → length i.ends ≤ d
      → (hits_at i d ≡ [])
        × (left_at i d ≡ at_doc law i.left_pad i.right_pad i.ends d (started i d))
  hits_past i d le =
      let pick : Bool → List Candidate × NgramIter S = λ b.
        if b
        then ([], at_doc law i.left_pad i.right_pad i.ends d (started i d))
        else ((rounds i d).0, at_doc law i.left_pad i.right_pad i.ends d (rounds i d).1) in
      let known : leb (length i.ends) d ≡ true = ground arith in
      (ap (λ r. r.0) (hits_lem i d ∙ ap pick known), ap (λ r. r.1) (hits_lem i d ∙ ap pick known))
