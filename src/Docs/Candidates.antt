-- ===== src/Docs/Candidates.antt =====
-- matchiter.go: ngramDocIterator.candidates returns the hits that lie in the file.
use mathlib.Core.Path.{subst}
use zoekt_archived.Prelude.{
  ℕ, zero, suc, ◌+◌, ◌-◌, ◌%◌, ◌^◌, ◌≤◌, ◌<◌, ◌≡◌, ◌≢◌, ap, sym, ◌∙◌, inl, inr, ◌⊎◌, Bool, true,
  false, ◌||◌, ◌&&◌, List, [], ◌∷◌, length, get_or, All, ltb, leb, ◌==◌, if◌then◌else◌, if-intro,
  Bool-cases, arith,
}
use zoekt_archived.MatchTree.{Candidate, max_u32}
use zoekt_archived.Hits.{HitIterator}
use zoekt_archived.Hits.Laws.{IsHitIterator}
use zoekt_archived.Docs.NgramIter.{
  NgramIter, file_start, collect, candidates_of_ngram, hit_candidate,
}

compare_cases : (a b : ℕ) → (a < b) ⊎ ((a ≡ b) ⊎ (b < a))
compare_cases a b = ground arith

-- The test against one more candidate.
take_other : (v o : ℕ) (b c : Bool) → v ≢ o → b ≡ c → ((v == o) || b) ≡ c
take_other v o b c ne e = ground arith

take_this : (v o : ℕ) (b h c : Bool) → v ≡ o → h ≡ true → c ≡ true → ((v == o) || b) ≡ (h && c)
take_this v o b h c e p q = ground arith

unfoldable pub has_offset : List Candidate → ℕ → Bool
has_offset [] o = false
has_offset (c ∷ cs) o = (c.rune_offset == o) || has_offset cs o

module _ {S : Type 0} {it : HitIterator S} {Ok : S → Type 0} {has : S → ℕ → Bool} {left : S → ℕ}
    (law : IsHitIterator it Ok has left) where
  pub drop_first : (s : S) (p : ℕ) → Ok s → p ≤ it.first s → has (it.next (it.first s) s) p ≡ false
  drop_first s p ok le = elim (Bool-cases (has (it.next (it.first s) s) p)) [
    | inr gone ↦ gone
    | inl h ↦
        let e : it.first s ≡ p =
          omega (arith, law.first_least s p ok (law.next_within s (it.first s) p ok h), le) in
        ap (has (it.next (it.first s) s)) (sym e) ∙ law.next_drops s (it.first s) ok (omega arith)
  ]

  pub below_first : (s : S) (p : ℕ) → Ok s → p < it.first s → has s p ≡ false
  below_first s p ok lt = let least = law.first_least s p ok in ground arith

  pub first_has : (s : S) → Ok s → it.first s < max_u32 → has s (it.first s) ≡ true
  first_has s ok u = elim (law.first_hit s ok) [ inl e ↦ absurd (omega arith) | inr h ↦ h ]

  -- The document's bounds: p is in the file, and no sum wraps around.
  module _ (i : NgramIter S) (p : ℕ) (low : file_start i.ends i.file_idx + i.left_pad ≤ p)
      (high : p < get_or i.ends i.file_idx 0)
      (fits : get_or i.ends i.file_idx 0 + i.right_pad < max_u32) where
    abbrev offset : ℕ
    offset = p - file_start i.ends i.file_idx - i.left_pad

    abbrev end : ℕ
    end = get_or i.ends i.file_idx 0

    abbrev Tells : S → List Candidate → Type 0
    Tells s cs = has_offset cs offset ≡ (has s p && leb (p + i.right_pad) end)

    -- A round that passes the first hit without a candidate, and one that appends it.
    Tells-skip :
        (s : S) (cs : List Candidate)
        → Ok s
        → it.first s < end
        → (ltb (it.first s) ((i.left_pad + file_start i.ends i.file_idx) % 2 ^ 32)
            || ltb end ((it.first s + i.right_pad) % 2 ^ 32))
          ≡ true
        → Tells (it.next (it.first s) s) cs
        → Tells s cs
    Tells-skip s cs ok lt e rest = elim (compare_cases (it.first s) p) [
      | inl below ↦
          let keeps = law.next_keeps s (it.first s) p ok below (omega arith) in ground arith
      | inr (inl same) ↦ let gone = drop_first s p ok (omega arith) in ground arith
      | inr (inr above) ↦
          let gone = drop_first s p ok (omega arith) in
          let none_below = below_first s p ok above in ground arith
    ]

    bounds_lem :
        (f : ℕ)
        → f < end
        → (ltb f ((i.left_pad + file_start i.ends i.file_idx) % 2 ^ 32)
            || ltb end ((f + i.right_pad) % 2 ^ 32))
          ≡ false
        → (file_start i.ends i.file_idx + i.left_pad ≤ f) × (f + i.right_pad ≤ end)
    bounds_lem f lt e = (ground arith, ground arith)

    offset_value :
        (f : ℕ)
        → f < end
        → file_start i.ends i.file_idx + i.left_pad ≤ f
        → (f + (2 ^ 32 - file_start i.ends i.file_idx) + (2 ^ 32 - i.left_pad)) % 2 ^ 32
          ≡ f - file_start i.ends i.file_idx - i.left_pad
    offset_value f lt ge = omega arith

    Tells-take :
        (s : S) (cs : List Candidate)
        → Ok s
        → it.first s < end
        → (ltb (it.first s) ((i.left_pad + file_start i.ends i.file_idx) % 2 ^ 32)
            || ltb end ((it.first s + i.right_pad) % 2 ^ 32))
          ≡ false
        → Tells (it.next (it.first s) s) cs
        → Tells s (
            hit_candidate i.file_idx (
              (it.first s + (2 ^ 32 - file_start i.ends i.file_idx) + (2 ^ 32 - i.left_pad))
              % 2 ^ 32)
            ∷ cs)
    unfolding has_offset
    Tells-take s cs ok lt e rest =
        let (ge, fit) = bounds_lem (it.first s) lt e in
        let value = offset_value (it.first s) lt ge in
        elim (compare_cases (it.first s) p) [
          | inl below ↦
              let keeps = law.next_keeps s (it.first s) p ok below (omega arith) in
              take_other _ offset (has_offset cs offset) (has s p && leb (p + i.right_pad) end)
                (omega (arith, value, below, ge, low))
                (rest ∙ ap (λ h. h && leb (p + i.right_pad) end) keeps)
          | inr (inl same) ↦
              let h = ap (has s) (sym same) ∙ first_has s ok (omega arith) in
              take_this _ offset (has_offset cs offset) (has s p) (leb (p + i.right_pad) end)
                (omega (arith, value, same)) h (ground arith)
          | inr (inr above) ↦
              let gone = drop_first s p ok (omega arith) in
              let none_below = below_first s p ok above in
              take_other _ offset (has_offset cs offset) (has s p && leb (p + i.right_pad) end)
                (omega (arith, value, above, ge, low))
                (rest ∙ ap (λ h. h && leb (p + i.right_pad) end) (gone ∙ sym none_below))
        ]

    collect-Tells : (fuel : ℕ) (s : S) → Ok s → left s < fuel → Tells s (collect it left fuel i s).0
    unfolding collect has_offset
    collect-Tells zero s ok enough = absurd (omega arith)
    collect-Tells (suc fuel) s ok enough =
        let P = λ (r : List Candidate × S). Tells s r.0 in
        let f = it.first s in
        let rest = collect it left fuel i (it.next f s) in
        let taken : List Candidate × S = (
          hit_candidate i.file_idx
                ((f + (2 ^ 32 - file_start i.ends i.file_idx) + (2 ^ 32 - i.left_pad)) % 2 ^ 32)
              ∷ rest.0,
          rest.1,
        ) in
        let outside =
          ltb f ((i.left_pad + file_start i.ends i.file_idx) % 2 ^ 32)
          || ltb end ((f + i.right_pad) % 2 ^ 32) in
        let later = λ (lt : f < end).
          collect-Tells fuel (it.next f s) (law.next_ok s f ok)
            (omega (arith, enough, law.next_less s f ok (omega arith) (omega (arith, lt, fits)))) in
        if-intro P ((f == max_u32) || leb end f) ([], s) (if outside then rest else taken)
          (λ e. let none_there = below_first s p ok (ground arith) in ground arith)
          (λ e.
            let lt : f < end = ground arith in
            if-intro P outside rest taken (λ skip. Tells-skip s rest.0 ok lt skip (later lt))
              (λ take. Tells-take s rest.0 ok lt take (later lt)))

  -- A hit of the file with its padding, at its offset in the file's text.
  unfoldable pub IsHitOf : NgramIter S → S → Candidate → Type 0
  IsHitOf i s c =
      (p : ℕ) × ((has s p ≡ true)
        × (((file_start i.ends i.file_idx + i.left_pad ≤ p)
              × ((p < get_or i.ends i.file_idx 0) × (p + i.right_pad ≤ get_or i.ends i.file_idx 0)))
            × (c ≡ hit_candidate i.file_idx (p - file_start i.ends i.file_idx - i.left_pad))))

  IsHitOf-next :
      (i : NgramIter S) (s : S) (l : ℕ) (cs : List Candidate)
      → Ok s
      → All (IsHitOf i (it.next l s)) cs
      → All (IsHitOf i s) cs
  unfolding IsHitOf
  IsHitOf-next i s l [] ok all = tt
  IsHitOf-next i s l (c ∷ cs) ok ((p, (h, rest)), all) =
      ((p, (law.next_within s l p ok h, rest)), IsHitOf-next i s l cs ok all)

  module _ (i : NgramIter S) (low : file_start i.ends i.file_idx + i.left_pad < 2 ^ 32)
      (fits : get_or i.ends i.file_idx 0 + i.right_pad < max_u32) where
    first-IsHitOf :
        (s : S)
        → Ok s
        → it.first s < get_or i.ends i.file_idx 0
        → (ltb (it.first s) ((i.left_pad + file_start i.ends i.file_idx) % 2 ^ 32)
            || ltb (get_or i.ends i.file_idx 0) ((it.first s + i.right_pad) % 2 ^ 32))
          ≡ false
        → IsHitOf i s (
            hit_candidate i.file_idx (
              (it.first s + (2 ^ 32 - file_start i.ends i.file_idx) + (2 ^ 32 - i.left_pad))
              % 2 ^ 32))
    unfolding IsHitOf
    first-IsHitOf s ok lt e =
        let f = it.first s in
        let start = file_start i.ends i.file_idx in
        let ge : start + i.left_pad ≤ f = ground arith in
        let fit : f + i.right_pad ≤ get_or i.ends i.file_idx 0 = ground arith in
        let value : (f + (2 ^ 32 - start) + (2 ^ 32 - i.left_pad)) % 2 ^ 32
            ≡ f - start - i.left_pad =
          omega arith in
        (f, (first_has s ok (omega arith), ((ge, (lt, fit)), ap (hit_candidate i.file_idx) value)))

    collect-IsHitOf : (fuel : ℕ) (s : S) → Ok s → All (IsHitOf i s) (collect it left fuel i s).0
    unfolding collect
    collect-IsHitOf zero s ok = tt
    collect-IsHitOf (suc fuel) s ok =
        let P = λ (r : List Candidate × S). All (IsHitOf i s) r.0 in
        let f = it.first s in
        let end = get_or i.ends i.file_idx 0 in
        let rest = collect it left fuel i (it.next f s) in
        let taken : List Candidate × S = (
          hit_candidate i.file_idx
                ((f + (2 ^ 32 - file_start i.ends i.file_idx) + (2 ^ 32 - i.left_pad)) % 2 ^ 32)
              ∷ rest.0,
          rest.1,
        ) in
        let outside =
          ltb f ((i.left_pad + file_start i.ends i.file_idx) % 2 ^ 32)
          || ltb end ((f + i.right_pad) % 2 ^ 32) in
        let later =
          IsHitOf-next i s f rest.0 ok (collect-IsHitOf fuel (it.next f s) (law.next_ok s f ok)) in
        if-intro P ((f == max_u32) || leb end f) ([], s) (if outside then rest else taken) (λ _. tt)
          (λ e.
            if-intro P outside rest taken (λ _. later)
              (λ take. (first-IsHitOf s ok (ground arith) take, later)))

  -- A place p of the file, at least leftPad after its start, is reported as a candidate at its offset
  -- exactly if it is a hit that ends rightPad later within the file; and every candidate is reported for such a
  -- hit, at its offset. This is for a file whose start does not wrap around with leftPad, nor its end with rightPad.
  pub candidates_of_ngram_lem :
      (i : NgramIter S)
      → Ok i.iter
      → i.file_idx < length i.ends
      → file_start i.ends i.file_idx + i.left_pad < 2 ^ 32
      → get_or i.ends i.file_idx 0 + i.right_pad < max_u32
      → ((p : ℕ)
          → file_start i.ends i.file_idx + i.left_pad ≤ p
          → p < get_or i.ends i.file_idx 0
          → has_offset
              (candidates_of_ngram it left i).0
              (p - file_start i.ends i.file_idx - i.left_pad)
            ≡ (has i.iter p && leb (p + i.right_pad) (get_or i.ends i.file_idx 0)))
        × All (IsHitOf i i.iter) (candidates_of_ngram it left i).0
  unfolding candidates_of_ngram
  candidates_of_ngram_lem i ok idx begin fits =
      let found = collect it left (suc (left i.iter)) i i.iter in
      let known : leb (length i.ends) i.file_idx ≡ false = ground arith in
      let pick : Bool → List Candidate × NgramIter S =
        λ b. if b then ([], i) else (found.0, record i { iter = found.1 }) in
      let same : (candidates_of_ngram it left i).0 ≡ found.0 = ap (λ b. (pick b).0) known in
      (
        λ p low high.
            ap (λ cs. has_offset cs (p - file_start i.ends i.file_idx - i.left_pad)) same
            ∙ collect-Tells i p low high fits (suc (left i.iter)) i.iter ok (omega arith),
        subst (All (IsHitOf i i.iter)) (sym same)
            (collect-IsHitOf i begin fits (suc (left i.iter)) i.iter ok),
      )
