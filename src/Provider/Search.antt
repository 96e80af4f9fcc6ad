-- ===== src/Provider/Search.antt =====
-- sort.Search of package sort, and what it finds.
use mathlib.Core.Path.{subst}
use zoekt_archived.Prelude.{
  ℕ, zero, suc, ◌+◌, ◌-◌, ◌/◌, ◌≤◌, ◌<◌, ◌≡◌, refl, Bool, true, false, ◌⊎◌, inl, inr, ltb, arith,
}

unfoldable pub bisect : (ℕ → Bool) → ℕ → ℕ → ℕ → ℕ
bisect p zero i j = i
bisect p (suc fuel) i j = elim (ltb i j) as (λ _. ℕ) [
  | false ↦ i
  | true ↦ elim (p ((i + j) / 2)) as (λ _. ℕ) [
    | false ↦ bisect p fuel ((i + j) / 2 + 1) j
    | true ↦ bisect p fuel i ((i + j) / 2)
  ]
]

-- Each round makes the range smaller, so its length is enough fuel.
unfoldable pub sort_search : ℕ → (ℕ → Bool) → ℕ
unfolding bisect
sort_search n p = bisect p n 0 n

-- A place of change: the test holds there, or it is the end, and it fails one place before.
unfoldable pub IsChange : ℕ → (ℕ → Bool) → ℕ → Type 0
IsChange n p r = (r ≤ n) × (((r ≡ n) ⊎ (p r ≡ true)) × ((r ≡ 0) ⊎ (p (r - 1) ≡ false)))

branch-intro :
    (P : ℕ → Type 0) (b : Bool) (x y : ℕ)
    → (b ≡ false → P x)
    → (b ≡ true → P y)
    → P (elim b as (λ _. ℕ) [ false ↦ x | true ↦ y ])
branch-intro P true x y f g = g refl
branch-intro P false x y f g = f refl

bisect-IsChange :
    (n : ℕ) (p : ℕ → Bool) (fuel i j : ℕ)
    → i ≤ j
    → j ≤ n
    → j - i ≤ fuel
    → (j ≡ n) ⊎ (p j ≡ true)
    → (i ≡ 0) ⊎ (p (i - 1) ≡ false)
    → IsChange n p (bisect p fuel i j)
unfolding bisect IsChange
bisect-IsChange n p zero i j le ge enough above below =
    let same : j ≡ i = omega arith in
    (omega arith, (subst (λ k. (k ≡ n) ⊎ (p k ≡ true)) same above, below))
bisect-IsChange n p (suc fuel) i j le ge enough above below =
    let h = (i + j) / 2 in
    let lower = bisect-IsChange n p fuel i h in
    let upper = bisect-IsChange n p fuel (h + 1) j in
    branch-intro (IsChange n p) (ltb i j) i
      (elim (p h) as (λ _. ℕ) [ false ↦ bisect p fuel (h + 1) j | true ↦ bisect p fuel i h ])
      (λ out.
        let same : j ≡ i = ground arith in
        (omega arith, (subst (λ k. (k ≡ n) ⊎ (p k ≡ true)) same above, below)))
      (λ within.
        let lt : i < j = ground arith in
        branch-intro (IsChange n p) (p h) (bisect p fuel (h + 1) j) (bisect p fuel i h)
          (λ no.
            let place : h ≡ h + 1 - 1 = omega arith in
            upper (omega arith) ge (omega arith) above (inr (subst (λ k. p k ≡ false) place no)))
          (λ yes. lower (omega arith) (omega arith) (omega arith) (inr yes) below))

pub sort_search_lem : (n : ℕ) (p : ℕ → Bool) → IsChange n p (sort_search n p)
unfolding sort_search
sort_search_lem n p =
    bisect-IsChange n p n 0 n (omega arith) (omega arith) (omega arith) (inl refl) (inl refl)
