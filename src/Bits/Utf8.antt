-- ===== src/Bits/Utf8.antt =====
-- Go's utf8.DecodeRune: the rune at the front of a byte string, and the bytes that it takes.
use zoekt_archived.Prelude.{
  ℕ, ◌+◌, ◌-◌, ◌*◌, ◌/◌, ◌%◌, Bool, ◌&&◌, ◌||◌, List, [], ◌∷◌, ◌++◌, Bytes, ltb, leb, if◌then◌else◌,
}

abbrev pub rune_error : ℕ
rune_error = 0xfffd

-- lo ≤ c ≤ hi
abbrev pub within : ℕ → ℕ → ℕ → Bool
within lo hi c = leb lo c && leb c hi

abbrev is_continuation : ℕ → Bool
is_continuation c = within 0x80 0xbf c

abbrev invalid : ℕ × ℕ
invalid = (rune_error, 1)

-- A lead byte 0xc2 to 0xdf, and what follows.
decode_two : ℕ → Bytes → ℕ × ℕ
decode_two a (b ∷ rest) = if is_continuation b then ((a - 0xc0) * 64 + (b - 0x80), 2) else invalid
decode_two a [] = invalid

-- A lead byte 0xe0 to 0xef: the second byte is restricted, against overlong forms and surrogates.
decode_three : ℕ → Bytes → ℕ × ℕ
decode_three a (b ∷ c ∷ rest) =
    if within (if ltb a 0xe1 then 0xa0 else 0x80) (if within 0xed 0xed a then 0x9f else 0xbf) b
      && is_continuation c
    then ((a - 0xe0) * 4096 + (b - 0x80) * 64 + (c - 0x80), 3)
    else invalid
decode_three a _ = invalid

-- A lead byte 0xf0 to 0xf4.
decode_four : ℕ → Bytes → ℕ × ℕ
decode_four a (b ∷ c ∷ d ∷ rest) =
    if within (if ltb a 0xf1 then 0x90 else 0x80) (if ltb a 0xf4 then 0xbf else 0x8f) b
      && (is_continuation c && is_continuation d)
    then ((a - 0xf0) * 262144 + (b - 0x80) * 4096 + (c - 0x80) * 64 + (d - 0x80), 4)
    else invalid
decode_four a _ = invalid

unfoldable pub decode_rune : Bytes → ℕ × ℕ
unfolding decode_two decode_three decode_four
decode_rune [] = (rune_error, 0)
decode_rune (a ∷ rest) =
    if ltb a 0x80
    then (a, 1)
    else if within 0xc2 0xdf a
    then decode_two a rest
    else if within 0xe0 0xef a
    then decode_three a rest
    else if within 0xf0 0xf4 a
    then decode_four a rest
    else invalid

-- utf8.EncodeRune and the conversion string(runes), which writes U+FFFD for a value that is no rune.
unfoldable pub encode_rune : ℕ → Bytes
encode_rune r =
    if ltb r 0x80
    then r ∷ []
    else if ltb r 0x800
    then (0xc0 + r / 64) ∷ (0x80 + r % 64) ∷ []
    else if leb 0xd800 r && leb r 0xdfff || ltb 0x10ffff r
    then 0xef ∷ 0xbf ∷ 0xbd ∷ []
    else if ltb r 0x10000
    then (0xe0 + r / 4096) ∷ (0x80 + r / 64 % 64) ∷ (0x80 + r % 64) ∷ []
    else (0xf0 + r / 262144) ∷ (0x80 + r / 4096 % 64) ∷ (0x80 + r / 64 % 64) ∷ (0x80 + r % 64) ∷ []

unfoldable pub string_of_runes : List ℕ → Bytes
unfolding encode_rune
string_of_runes [] = []
string_of_runes (r ∷ rs) = encode_rune r ++ string_of_runes rs
