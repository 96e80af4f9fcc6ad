-- ===== src/Builder/Apart.antt =====
-- indexbuilder.go and utf8.DecodeRune: a text whose first byte continues no rune ends the rune before it.
use zoekt_archived.Prelude.{
  ℕ, zero, suc, ◌+◌, ◌≤◌, ◌<◌, ◌≡◌, ◌⊎◌, refl, ap, ◌∙◌, [], ◌∷◌, ◌++◌, append-nil, length-drop,
  Bytes, length, drop, arith,
}
use zoekt_archived.Bits.Utf8.{decode_rune}
use zoekt_archived.Bits.RuneSize.{decode_rune-size}
use zoekt_archived.Provider.OffsetLaws.{bytes_of_runes}
use zoekt_archived.Builder.OffsetTables.{IsApart}

-- A byte at which a rune starts.
unfoldable pub Starts : ℕ → Type 0
Starts b = (b < 128) ⊎ (191 < b)

-- A text in which a rune starts at the first byte, if there is one.
unfoldable pub StartsWhole : Bytes → Type 0
unfolding Starts
StartsWhole [] = Unit
StartsWhole (b ∷ bs) = Starts b

decode_rune-apart_lem :
    (x b : ℕ) (xs ys : Bytes) → Starts b → decode_rune (x ∷ xs ++ b ∷ ys) ≡ decode_rune (x ∷ xs)
unfolding decode_rune Starts
decode_rune-apart_lem x b [] [] start =
    let same : decode_rune (x ∷ b ∷ []) ≡ decode_rune (x ∷ []) = ground arith in same
decode_rune-apart_lem x b [] (y ∷ []) start =
    let same : decode_rune (x ∷ b ∷ y ∷ []) ≡ decode_rune (x ∷ []) = ground arith in same
decode_rune-apart_lem x b [] (y ∷ z ∷ ys) start =
    let same : decode_rune (x ∷ b ∷ y ∷ z ∷ ys) ≡ decode_rune (x ∷ []) = ground arith in same
decode_rune-apart_lem x b (c ∷ []) [] start =
    let same : decode_rune (x ∷ c ∷ b ∷ []) ≡ decode_rune (x ∷ c ∷ []) = ground arith in same
decode_rune-apart_lem x b (c ∷ []) (y ∷ ys) start =
    let same : decode_rune (x ∷ c ∷ b ∷ y ∷ ys) ≡ decode_rune (x ∷ c ∷ []) = ground arith in same
decode_rune-apart_lem x b (c ∷ d ∷ []) ys start =
    let same : decode_rune (x ∷ c ∷ d ∷ b ∷ ys) ≡ decode_rune (x ∷ c ∷ d ∷ []) = ground arith in
    same
decode_rune-apart_lem x b (c ∷ d ∷ e ∷ xs) ys start =
    let same : decode_rune (x ∷ c ∷ d ∷ e ∷ (xs ++ b ∷ ys)) ≡ decode_rune (x ∷ c ∷ d ∷ e ∷ xs) =
      ground arith in
    same

decode_rune-apart :
    (x : ℕ) (xs behind : Bytes)
    → StartsWhole behind
    → decode_rune ((x ∷ xs) ++ behind) ≡ decode_rune (x ∷ xs)
unfolding StartsWhole
decode_rune-apart x xs [] start = ap decode_rune (append-nil (x ∷ xs))
decode_rune-apart x xs (b ∷ ys) start = decode_rune-apart_lem x b xs ys start

drop-append : (n : ℕ) (xs ys : Bytes) → n ≤ length xs → drop n (xs ++ ys) ≡ drop n xs ++ ys
drop-append zero xs ys le = refl
drop-append (suc n) [] ys le = absurd (omega arith)
drop-append (suc n) (x ∷ xs) ys le = drop-append n xs ys (omega arith)

-- If a rune starts at the first byte of a text, then runes before it that are all non-empty do not go on in it.
pub starts-IsApart :
    (n : ℕ) (text behind : Bytes)
    → StartsWhole behind
    → ((m : ℕ) → m < n → bytes_of_runes m text < length text)
    → IsApart n text behind
unfolding IsApart bytes_of_runes
starts-IsApart n text behind start proper zero le = refl
starts-IsApart n [] behind start proper (suc m) le =
    let none = proper m (omega arith) in absurd (omega arith)
starts-IsApart zero (x ∷ xs) behind start proper (suc m) le = absurd (omega arith)
starts-IsApart (suc n) (x ∷ xs) behind start proper (suc m) le =
    let (_, inside) = decode_rune-size x xs in
    let sz = (decode_rune (x ∷ xs)).1 in
    let same = decode_rune-apart x xs behind start in
    let rest = drop sz (x ∷ xs) in
    let left = length-drop sz (x ∷ xs) in
    let bytes : drop (decode_rune ((x ∷ xs) ++ behind)).1 ((x ∷ xs) ++ behind) ≡ rest ++ behind =
      ap (λ r. drop r.1 ((x ∷ xs) ++ behind)) same ∙ drop-append sz (x ∷ xs) behind inside in
    let later =
      starts-IsApart n rest behind start
        (λ k lt. let fits = proper (suc k) (omega arith) in omega (arith, left)) m (omega arith) in
    (λ i. (same i).1 + bytes_of_runes m (bytes i)) ∙ omega (arith, later)
