-- ===== src/Hits/Merging.antt =====
-- hititer.go: a mergingIterator meets the contract if the iterators that it merges do.
use zoekt_archived.Prelude.{
  ℕ, ◌+◌, ◌≤◌, ◌<◌, ◌≡◌, refl, ap, sym, ◌∙◌, inl, inr, ◌⊎◌, Bool, true, false, ◌||◌, List, [], ◌∷◌,
  All, ltb, arith, if◌then◌else◌, Bool-cases,
}
use zoekt_archived.Hits.{HitIterator, first_loop, next_merging, merging}
use zoekt_archived.Hits.Laws.{IsHitIterator}
use zoekt_archived.MatchTree.{max_u32}

module _ {S : Type 0} (has : S → ℕ → Bool) where
  unfoldable pub has_any : List S → ℕ → Bool
  has_any [] p = false
  has_any (j ∷ iters) p = has j p || has_any iters p

module _ {S : Type 0} (left : S → ℕ) where
  unfoldable pub left_all : List S → ℕ
  left_all [] = 0
  left_all (j ∷ iters) = left j + left_all iters

module _ {S : Type 0} (it : HitIterator S) (Ok : S → Type 0) (has : S → ℕ → Bool) (left : S → ℕ)
    (law : IsHitIterator it Ok has left) where
  any_bound : (iters : List S) (p : ℕ) → All Ok iters → has_any has iters p ≡ true → p < max_u32
  unfolding has_any
  any_bound [] p ok h = absurd (ground arith)
  any_bound (j ∷ iters) p (o, ok) h =
      let here = law.has_bound j p o in let later = any_bound iters p ok in ground arith

  loop_bound : (r : ℕ) (iters : List S) → first_loop it r iters ≤ r
  unfolding first_loop
  loop_bound r [] = omega arith
  loop_bound r (j ∷ iters) =
      let rest = loop_bound (if ltb (it.first j) r then it.first j else r) iters in ground arith

  loop_least :
      (r : ℕ) (iters : List S) (p : ℕ)
      → All Ok iters
      → has_any has iters p ≡ true
      → first_loop it r iters ≤ p
  unfolding first_loop has_any
  loop_least r [] p ok h = absurd (ground arith)
  loop_least r (j ∷ iters) p (o, ok) h =
      let next = if ltb (it.first j) r then it.first j else r in
      let here = law.first_least j p o in
      let later = loop_least next iters p ok in let bound = loop_bound next iters in ground arith

  -- The variable r after a round.
  round_cases :
      (j : S) (r : ℕ)
      → let n = if ltb (it.first j) r then it.first j else r in
        (n ≡ r) ⊎ ((n ≡ it.first j) × (n < r))
  round_cases j r = ground arith

  first_has : (j : S) (n : ℕ) → Ok j → n ≡ it.first j → n < max_u32 → has j n ≡ true
  first_has j n o e lt = elim (law.first_hit j o) [
    | inl m ↦ absurd (omega arith)
    | inr h ↦ ap (has j) e ∙ h
  ]

  loop_hit :
      (r : ℕ) (iters : List S)
      → r ≤ max_u32
      → All Ok iters
      → (first_loop it r iters ≡ r) ⊎ (has_any has iters (first_loop it r iters) ≡ true)
  unfolding first_loop has_any
  loop_hit r [] le ok = inl refl
  loop_hit r (j ∷ iters) le (o, ok) =
      let n = if ltb (it.first j) r then it.first j else r in
      let later = loop_hit n iters (ground arith) ok in
      let here = λ (e : n ≡ it.first j). λ (lt : n < r). first_has j n o e (omega arith) in
      let found = λ (e : first_loop it n iters ≡ n). λ (h : has j n ≡ true). ap (has j) e ∙ h in
      elim later [
        | inr h ↦ inr (ground arith)
        | inl e ↦ elim (round_cases j r) [
          | inl same ↦ inl (e ∙ same)
          | inr (f, lt) ↦ let seen = found e (here f lt) in inr (ground arith)
        ]
      ]

  any_next :
      (l : ℕ) (iters : List S) (p : ℕ)
      → All Ok iters
      → (l < p → l < max_u32 → has_any has (next_merging it l iters) p ≡ has_any has iters p)
        × (has_any has (next_merging it l iters) p ≡ true → has_any has iters p ≡ true)
  unfolding next_merging has_any
  any_next l [] p ok = (λ _ _. refl, λ h. h)
  any_next l (j ∷ iters) p (o, ok) =
      let (keeps, within) = any_next l iters p ok in
      let here = law.next_keeps j l p o in
      let inside = law.next_within j l p o in
      (λ lt u. ground (arith, keeps lt u, here lt u), λ h. ground (arith, h, within, inside))

  first_eq :
      (f : ℕ) (j : S)
      → Ok j
      → it.first j ≤ f
      → f < max_u32
      → ((p : ℕ) → has j p ≡ true → f ≤ p)
      → it.first j ≡ f
  first_eq f j o le u least = elim (law.first_hit j o) [
    | inl m ↦ omega arith
    | inr h ↦ let ge = least (it.first j) h in omega arith
  ]

  drop_here :
      (f l : ℕ) (j : S)
      → Ok j
      → f ≤ l
      → ((p : ℕ) → has j p ≡ true → f ≤ p)
      → has (it.next l j) f ≡ false
  drop_here f l j o le least = elim (Bool-cases (has (it.next l j) f)) [
    | inr gone ↦ gone
    | inl kept ↦
        let h = law.next_within j l f o kept in
        let below = law.first_least j f o h in
        let e : it.first j ≡ f = first_eq f j o below (law.has_bound j f o h) least in
        ap (has (it.next l j)) (sym e) ∙ law.next_drops j l o (omega arith)
  ]

  any_drops :
      (f l : ℕ) (iters : List S)
      → All Ok iters
      → f ≤ l
      → ((p : ℕ) → has_any has iters p ≡ true → f ≤ p)
      → has_any has (next_merging it l iters) f ≡ false
  unfolding next_merging has_any
  any_drops f l [] ok le least = refl
  any_drops f l (j ∷ iters) (o, ok) le least =
      let rest = any_drops f l iters ok le (λ p h. least p (ground arith)) in
      let here = drop_here f l j o le (λ p h. least p (ground arith)) in ground arith

  any_ends :
      (iters : List S) (p : ℕ)
      → All Ok iters
      → has_any has (next_merging it max_u32 iters) p ≡ false
  unfolding next_merging has_any
  any_ends [] p ok = refl
  any_ends (j ∷ iters) p (o, ok) =
      let here = law.next_ends j p o in let rest = any_ends iters p ok in ground arith

  iters_ok : (l : ℕ) (iters : List S) → All Ok iters → All Ok (next_merging it l iters)
  unfolding next_merging
  iters_ok l [] ok = tt
  iters_ok l (j ∷ iters) (o, ok) = (law.next_ok j l o, iters_ok l iters ok)

  iters_left :
      (l : ℕ) (iters : List S)
      → All Ok iters
      → left_all left (next_merging it l iters) ≤ left_all left iters
  unfolding next_merging left_all
  iters_left l [] ok = omega arith
  iters_left l (j ∷ iters) (o, ok) = omega (arith, law.next_left j l o, iters_left l iters ok)

  iters_less :
      (r l : ℕ) (iters : List S)
      → All Ok iters
      → r ≤ max_u32
      → first_loop it r iters ≤ l
      → first_loop it r iters < r
      → left_all left (next_merging it l iters) < left_all left iters
  unfolding next_merging left_all first_loop
  iters_less r l [] ok u le lt = absurd (omega arith)
  iters_less r l (j ∷ iters) (o, ok) u le lt =
      let n = if ltb (it.first j) r then it.first j else r in
      let more = iters_left l iters ok in
      let same = law.next_left j l o in
      let fewer = law.next_less j l o in
      let later = iters_less n l iters ok (ground arith) le in
      let bound = loop_bound n iters in
      elim (round_cases j r) [ inl e ↦ ground arith | inr (e, below) ↦ ground arith ]

  -- mergingIterator meets the contract of a hitIterator if the merged ones do: its hits are the hits of
  -- any of them.
  pub merging-IsHitIterator : IsHitIterator (merging it) (All Ok) (has_any has) (left_all left)
  merging-IsHitIterator = record {
    has_bound = any_bound;
    first_hit = λ s ok. loop_hit max_u32 s (omega arith) ok;
    first_least = λ s p ok h. loop_least max_u32 s p ok h;
    next_ok = λ s l ok. iters_ok l s ok;
    next_keeps = λ s l p ok. (any_next l s p ok).0;
    next_within = λ s l p ok. (any_next l s p ok).1;
    next_drops =
        λ s l ok le. any_drops (first_loop it max_u32 s) l s ok le (λ p. loop_least max_u32 s p ok);
    next_ends = any_ends;
    next_left = λ s l ok. iters_left l s ok;
    next_less = λ s l ok. iters_less max_u32 l s ok (omega arith);
  }
