-- ===== src/Bits/Ngrams.antt =====
-- bits.go: packing of n-grams, and splitNGrams.
use zoekt_archived.Prelude.{
  ℕ, zero, suc, ◌+◌, ◌-◌, ◌*◌, ◌/◌, ◌%◌, ◌^◌, bit_and, bit_or, Bool, true, false, List, [], ◌∷◌,
  Bytes, length, drop, ltb, if◌then◌else◌,
}
use zoekt_archived.Bits.Utf8.{decode_rune}

-- [ngramSize]rune
abbrev pub Runes : Type 0
Runes = ℕ × (ℕ × ℕ)

-- runeMask
abbrev pub rune_mask : ℕ
rune_mask = 2097151

unfoldable pub runes_to_ngram : Runes → ℕ
runes_to_ngram (a, (b, c)) = bit_or (bit_or (a * 2 ^ 42 % 2 ^ 64) (b * 2 ^ 21 % 2 ^ 64)) c

unfoldable pub ngram_to_runes : ℕ → Runes
ngram_to_runes n =
    (bit_and (n / 2 ^ 42) rune_mask, (bit_and (n / 2 ^ 21) rune_mask, bit_and n rune_mask))

unfoldable pub bytes_to_ngram : ℕ → ℕ → ℕ → ℕ
unfolding runes_to_ngram
bytes_to_ngram a b c = runes_to_ngram (a, (b, c))

unfoldable pub ngram_to_bytes : ℕ → Bytes
unfolding ngram_to_runes
ngram_to_bytes n = let (a, (b, c)) = ngram_to_runes n in (a % 256) ∷ (b % 256) ∷ (c % 256) ∷ []

-- runeNgramOff
pub record RuneNgramOff : Type 0 where
  pub ngram : ℕ
  pub byte_size : ℕ
  pub byte_off : ℕ
  pub rune_off : ℕ

unfoldable pub byte_end : RuneNgramOff → ℕ
byte_end r = (r.byte_off + r.byte_size) % 2 ^ 32

-- The entry that a round appends, from the last three runes, the start of the first, and the end of the last.
unfoldable pub entry : Runes → ℕ → ℕ → ℕ → RuneNgramOff
unfolding runes_to_ngram
entry gram off i chars = record {
  ngram = runes_to_ngram gram;
  byte_size = (i + (2 ^ 32 - off)) % 2 ^ 32;
  byte_off = off;
  rune_off = chars % 2 ^ 32;
}

-- The loop of splitNGrams; each round takes a byte or more. `chars` is the value after chars++, which is
-- runeCount before runeCount++.
unfoldable pub split_loop : ℕ → Bytes → Runes → Runes → ℕ → ℕ → List RuneNgramOff
unfolding entry decode_rune
split_loop fuel [] gram off i chars = []
split_loop zero (c ∷ cs) gram off i chars = []
split_loop (suc fuel) (c ∷ cs) (a, (b, d)) (o, (p, q)) i chars =
    let (r, sz) = decode_rune (c ∷ cs) in
    let end = (i + sz) % 2 ^ 32 in
    let rest = split_loop fuel (drop sz (c ∷ cs)) (b, (d, r)) (p, (q, i)) end (chars + 1) in
    if ltb (chars + 1) 3 then rest else entry (b, (d, r)) p end chars ∷ rest

unfoldable pub split_ngrams : Bytes → List RuneNgramOff
unfolding split_loop
split_ngrams str = split_loop (length str) str (0, (0, 0)) (0, (0, 0)) 0 0

-- isASCII; each round takes a byte or more.
unfoldable pub ascii_loop : ℕ → Bytes → Bool
unfolding decode_rune
ascii_loop fuel [] = true
ascii_loop zero (c ∷ cs) = false
ascii_loop (suc fuel) (c ∷ cs) =
    let (r, sz) = decode_rune (c ∷ cs) in
    let rest = ascii_loop fuel (drop sz (c ∷ cs)) in if ltb 1 sz then false else rest

unfoldable pub is_ascii : Bytes → Bool
unfolding ascii_loop
is_ascii str = ascii_loop (length str) str
