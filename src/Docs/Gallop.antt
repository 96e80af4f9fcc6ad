-- ===== src/Docs/Gallop.antt =====
-- matchiter.go: the galloping search of nextFileIndex finds the next file boundary.
use mathlib.Core.Path.{subst}
use zoekt_archived.Prelude.{
  ℕ, zero, suc, ◌+◌, ◌*◌, ◌/◌, ◌%◌, ◌^◌, ◌-◌, ◌≤◌, ◌<◌, ◌≡◌, true, false, List, length, get_or, ltb,
  leb, if◌then◌else◌, if-intro, arith, inl, inr, ◌⊎◌, drop, [], ◌∷◌,
}
use zoekt_archived.Docs.FileIndex.{is_ended, index_loop, next_file_index}

lt_or_le : (a b : ℕ) → (a < b) ⊎ (b ≤ a)
lt_or_le a b = ground arith

abbrev pub IsSorted : List ℕ → Type 0
IsSorted ends = (i j : ℕ) → i ≤ j → j < length ends → get_or ends i 0 ≤ get_or ends j 0

-- r is the smallest index from f on whose end is beyond the offset, or the number of ends.
abbrev pub IsNextIndex : ℕ → List ℕ → ℕ → ℕ → Type 0
IsNextIndex offset ends f r =
    (f ≤ r)
    × ((r ≤ length ends)
        × (((j : ℕ) → f ≤ j → j < r → get_or ends j 0 ≤ offset)
            × ((r ≡ length ends) ⊎ (offset < get_or ends r 0))))

module _ (offset : ℕ) (ends : List ℕ) (sorted : IsSorted ends) (small : length ends ≤ 2 ^ 30) where
  -- From a later index, up to which the ends are within the offset.
  advance_lem :
      (f g r : ℕ)
      → f < g
      → g ≤ length ends
      → get_or ends (g - 1) 0 ≤ offset
      → IsNextIndex offset ends g r
      → IsNextIndex offset ends f r
  advance_lem f g r lt bound within (ge, (u, (below, beyond))) =
      let passed : (j : ℕ) → f ≤ j → j < r → get_or ends j 0 ≤ offset = λ j le before.
        elim (lt_or_le j g) [
          | inl h ↦ let s = sorted j (g - 1) (omega arith) (omega arith) in omega arith
          | inr h ↦ below j h before
        ] in
      (omega arith, (u, (passed, beyond)))

  is_ended_lem :
      (f : ℕ) → is_ended offset ends f ≡ true → (f < length ends) × (get_or ends f 0 ≤ offset)
  is_ended_lem f e = ground arith

  stopped :
      (f : ℕ)
      → f ≤ length ends
      → is_ended offset ends f ≡ false
      → (f ≡ length ends) ⊎ (offset < get_or ends f 0)
  stopped f le e = ground arith

  stop_lem :
      (f : ℕ) → f ≤ length ends → is_ended offset ends f ≡ false → IsNextIndex offset ends f f
  stop_lem f le e = (omega arith, (le, (λ j ge lt. absurd (omega arith), stopped f le e)))

  -- The two ways to advance: by the step d, and by one.
  jump_lem :
      (f d r : ℕ)
      → 1 ≤ d
      → d ≤ 2 * length ends + 1
      → f < length ends
      → is_ended offset ends ((f + d) % 2 ^ 32) ≡ true
      → IsNextIndex offset ends ((f + d) % 2 ^ 32) r
      → IsNextIndex offset ends f r
  jump_lem f d r pos bound lt e next =
      let (l, within) = is_ended_lem ((f + d) % 2 ^ 32) e in
      let s = sorted ((f + d) % 2 ^ 32 - 1) ((f + d) % 2 ^ 32) (omega arith) l in
      advance_lem f ((f + d) % 2 ^ 32) r (omega arith) (omega arith) (omega arith) next

  step_lem :
      (f r : ℕ)
      → f < length ends
      → get_or ends f 0 ≤ offset
      → IsNextIndex offset ends ((f + 1) % 2 ^ 32) r
      → IsNextIndex offset ends f r
  step_lem f r lt within next =
      let e : (f + 1) % 2 ^ 32 ≡ f + 1 = omega arith in
      let here : get_or ends ((f + 1) % 2 ^ 32 - 1) 0 ≤ offset =
        subst (λ k. get_or ends k 0 ≤ offset) (omega arith) within in
      advance_lem f ((f + 1) % 2 ^ 32) r (omega arith) (omega arith) here next

  index_loop-IsNextIndex :
      (fuel f d : ℕ)
      → f ≤ length ends
      → 1 ≤ d
      → d ≤ 2 * length ends + 1
      → 2 * (length ends - f) + d ≤ fuel
      → IsNextIndex offset ends f (index_loop offset ends fuel f d)
  unfolding index_loop
  index_loop-IsNextIndex zero f d le pos bound enough = absurd (omega arith)
  index_loop-IsNextIndex (suc fuel) f d le pos bound enough =
      let P = IsNextIndex offset ends f in
      let jump = index_loop offset ends fuel ((f + d) % 2 ^ 32) (d * 2 % 2 ^ 32) in
      let shrink = index_loop offset ends fuel f (d / 4 + 1) in
      let step = index_loop offset ends fuel ((f + 1) % 2 ^ 32) d in
      let far = is_ended offset ends ((f + d) % 2 ^ 32) in
      if-intro P (is_ended offset ends f) (if far then jump else if ltb 1 d then shrink else step) f
        (λ e.
          let (lt, within) = is_ended_lem f e in
          if-intro P far jump (if ltb 1 d then shrink else step)
            (λ e'.
              let (l, _) = is_ended_lem ((f + d) % 2 ^ 32) e' in
              jump_lem f d jump pos bound lt e' (
                index_loop-IsNextIndex fuel ((f + d) % 2 ^ 32) (d * 2 % 2 ^ 32) (omega arith)
                  (omega arith) (omega arith) (omega arith)))
            (λ _.
              if-intro P (ltb 1 d) shrink step
                (λ more.
                  let big : 1 < d = ground arith in
                  index_loop-IsNextIndex fuel f (d / 4 + 1) le (omega arith) (omega arith)
                    (omega arith))
                (λ _. step_lem f step lt within (
                  index_loop-IsNextIndex fuel ((f + 1) % 2 ^ 32) d (omega arith) pos bound
                    (omega arith)))))
        (stop_lem f le)

  pub gallop_lem :
      (f : ℕ) → f ≤ length ends → IsNextIndex offset ends f (next_file_index offset f ends)
  unfolding next_file_index
  gallop_lem f le =
      index_loop-IsNextIndex (2 * length ends + 2) f 1 le (omega arith) (omega arith) (omega arith)

-- The number of leading ends that are within the offset.
unfoldable pub leading : ℕ → List ℕ → ℕ
leading offset [] = 0
leading offset (x ∷ xs) = let rest = leading offset xs in if leb x offset then rest + 1 else 0

beyond_shift :
    (offset x : ℕ) (xs : List ℕ) (r : ℕ)
    → (suc r ≡ length (x ∷ xs)) ⊎ (offset < get_or (x ∷ xs) (suc r) 0)
    → (r ≡ length xs) ⊎ (offset < get_or xs r 0)
beyond_shift offset x xs r (inl e) = inl (omega arith)
beyond_shift offset x xs r (inr lt) = inr lt

next_shift :
    (offset x : ℕ) (xs : List ℕ) (f r : ℕ)
    → IsNextIndex offset (x ∷ xs) (suc f) (suc r)
    → IsNextIndex offset xs f r
next_shift offset x xs f r (ge, (u, (below, beyond))) = (
  omega arith,
  (
    omega arith,
    (λ j a b. below (suc j) (omega arith) (omega arith), beyond_shift offset x xs r beyond),
  ),
)

next_zero :
    (offset x : ℕ) (xs : List ℕ) (r : ℕ)
    → IsNextIndex offset (x ∷ xs) 0 (suc r)
    → IsNextIndex offset xs 0 r
next_zero offset x xs r (ge, (u, (below, beyond))) = (
  omega arith,
  (
    omega arith,
    (λ j a b. below (suc j) (omega arith) (omega arith), beyond_shift offset x xs r beyond),
  ),
)

-- There is only one such index.
next_index_unique :
    (offset : ℕ) (ends : List ℕ) (f r : ℕ)
    → IsNextIndex offset ends f r
    → r ≡ f + leading offset (drop f ends)
unfolding leading
next_index_unique offset [] zero r (ge, (u, _)) = omega arith
next_index_unique offset [] (suc f) r (ge, (u, _)) = absurd (omega arith)
next_index_unique offset (x ∷ xs) zero zero (ge, (u, (below, beyond))) = elim beyond [
  | inl e ↦ absurd (omega arith)
  | inr lt ↦ ground arith
]
next_index_unique offset (x ∷ xs) zero (suc r) n =
    let within = n.1.1.0 0 (omega arith) (omega arith) in
    let rest = next_index_unique offset xs 0 r (next_zero offset x xs r n) in ground arith
next_index_unique offset (x ∷ xs) (suc f) zero (ge, _) = absurd (omega arith)
next_index_unique offset (x ∷ xs) (suc f) (suc r) n =
    let rest = next_index_unique offset xs f r (next_shift offset x xs f r n) in omega arith

-- nextFileIndex is the linear search: from f on, it passes the ends within the offset, and stops at the
-- first one beyond it or at the number of ends. This is for ascending ends, at most 2^30 of them, and f
-- at most their number.
pub next_file_index_lem :
    (offset : ℕ) (ends : List ℕ) (f : ℕ)
    → IsSorted ends
    → length ends ≤ 2 ^ 30
    → f ≤ length ends
    → next_file_index offset f ends ≡ f + leading offset (drop f ends)
next_file_index_lem offset ends f sorted small le =
    next_index_unique offset ends f (next_file_index offset f ends)
      (gallop_lem offset ends sorted small f le)
