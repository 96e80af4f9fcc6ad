-- ===== src/Bits/Fold.antt =====
-- bits.go: caseFoldingEqualsRunes. `to_lower` is unicode.ToLower, a table of the standard library.
use zoekt_archived.Prelude.{
  ℕ, zero, suc, ◌+◌, Bool, true, false, [], ◌∷◌, Bytes, length, drop, ◌==◌, if◌then◌else◌,
}
use zoekt_archived.Bits.Utf8.{decode_rune}

module _ (to_lower : ℕ → ℕ) where
  -- The loop; a round takes a byte of `lower` at least, so its length is enough fuel.
  unfoldable pub fold_loop : ℕ → Bytes → Bytes → ℕ → ℕ × Bool
  unfolding decode_rune
  fold_loop fuel [] mixed total = (total, true)
  fold_loop fuel (l ∷ ls) [] total = (total, false)
  fold_loop zero (l ∷ ls) (m ∷ ms) total = (total, false)
  fold_loop (suc fuel) (l ∷ ls) (m ∷ ms) total =
      let lower = decode_rune (l ∷ ls) in
      let mixed = decode_rune (m ∷ ms) in
      let rest = fold_loop fuel (drop lower.1 (l ∷ ls)) (drop mixed.1 (m ∷ ms)) (total + mixed.1) in
      if lower.0 == to_lower mixed.0 then rest else (0, false)

  unfoldable pub case_folding_equals_runes : Bytes → Bytes → ℕ × Bool
  unfolding fold_loop
  case_folding_equals_runes lower mixed = fold_loop (length lower) lower mixed 0
