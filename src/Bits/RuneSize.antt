-- ===== src/Bits/RuneSize.antt =====
-- utf8.DecodeRune takes at least one byte of a text that has one, and no more than there are.
use zoekt_archived.Prelude.{ℕ, ◌≤◌, [], ◌∷◌, Bytes, length, arith}
use zoekt_archived.Bits.Utf8.{decode_rune}

Takes : Bytes → ℕ × ℕ → Type 0
Takes text r = (1 ≤ r.1) × (r.1 ≤ length text)

pub decode_rune-size :
    (b : ℕ) (bs : Bytes)
    → (1 ≤ (decode_rune (b ∷ bs)).1) × ((decode_rune (b ∷ bs)).1 ≤ length (b ∷ bs))
unfolding decode_rune
decode_rune-size b [] = ground arith
decode_rune-size b (c ∷ []) = ground arith
decode_rune-size b (c ∷ d ∷ []) = ground arith
decode_rune-size b (c ∷ d ∷ e ∷ bs) = ground arith
