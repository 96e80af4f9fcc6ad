-- ===== src/Builder/Map.antt =====
-- Go maps from n-grams, as association lists: a missing key reads as the zero value.
use zoekt_archived.Prelude.{ℕ, ◌≡◌, List, [], ◌∷◌, ◌==◌, if◌then◌else◌, arith}

module _ {A : Type 0} where
  unfoldable pub find : ℕ → A → List (ℕ × A) → A
  find k zero_value [] = zero_value
  find k zero_value ((j, a) ∷ m) = let rest = find k zero_value m in if j == k then a else rest

  unfoldable pub put : ℕ → A → List (ℕ × A) → List (ℕ × A)
  put k a [] = (k, a) ∷ []
  put k a ((j, b) ∷ m) = let rest = put k a m in if j == k then (k, a) ∷ m else (j, b) ∷ rest

  pub find-put :
      (k j : ℕ) (zero_value a : A) (m : List (ℕ × A))
      → find j zero_value (put k a m) ≡ (if k == j then a else find j zero_value m)
  unfolding find put
  find-put k j zero_value a [] = ground arith
  find-put k j zero_value a ((i, b) ∷ m) = ground (arith, find-put k j zero_value a m)
