-- ===== src/Provider/SliceLaws.antt =====
-- contentprovider.go: the slice of bytes that findOffset skips runes in.
use zoekt_archived.Prelude.{
  ℕ, zero, suc, ◌+◌, ◌-◌, ◌%◌, ◌^◌, ◌≤◌, ◌≡◌, refl, ap, sym, ◌∙◌, [], ◌∷◌, ◌++◌, Bytes, length,
  drop, take, length-drop, arith,
}
use zoekt_archived.Bits.Utf8.{decode_rune}
use zoekt_archived.Bits.RuneSize.{decode_rune-size}
use zoekt_archived.Provider.Offset.{skip_loop}
use zoekt_archived.Provider.OffsetLaws.{bytes_of_runes, SameSkip}

-- A rune has at most four bytes.
decode_rune-take :
    (m : ℕ) (xs : Bytes) → decode_rune (take (suc (suc (suc (suc m)))) xs) ≡ decode_rune xs
unfolding decode_rune
decode_rune-take m [] = refl
decode_rune-take m (a ∷ []) = refl
decode_rune-take m (a ∷ b ∷ []) = refl
decode_rune-take m (a ∷ b ∷ c ∷ []) = refl
decode_rune-take m (a ∷ b ∷ c ∷ d ∷ rest) = refl

decode_rune_same :
    (m : ℕ) (xs ys : Bytes) → 4 ≤ m → take m xs ≡ take m ys → decode_rune xs ≡ decode_rune ys
decode_rune_same (suc (suc (suc (suc m)))) xs ys le same =
    sym (decode_rune-take m xs) ∙ ap decode_rune same ∙ decode_rune-take m ys
decode_rune_same zero xs ys le same = absurd (omega arith)
decode_rune_same (suc zero) xs ys le same = absurd (omega arith)
decode_rune_same (suc (suc zero)) xs ys le same = absurd (omega arith)
decode_rune_same (suc (suc (suc zero))) xs ys le same = absurd (omega arith)

take-drop : (m n : ℕ) (xs : Bytes) → take m (drop n xs) ≡ drop n (take (n + m) xs)
take-drop m zero xs = let whole : m ≡ 0 + m = omega arith in ap (λ k. take k xs) whole
take-drop zero (suc n) [] =
    let whole : suc n + 0 ≡ suc n = omega arith in
    sym (ap (λ k. drop (suc n) (take {A = ℕ} k [])) whole)
take-drop (suc m) (suc n) [] =
    let whole : suc n + suc m ≡ suc (n + suc m) = omega arith in
    sym (ap (λ k. drop (suc n) (take {A = ℕ} k [])) whole)
take-drop m (suc n) (x ∷ xs) =
    let whole : suc n + m ≡ suc (n + m) = omega arith in
    take-drop m n xs ∙ sym (ap (λ k. drop (suc n) (take k (x ∷ xs))) whole)

-- Texts that agree on the bytes of the runes skipped, and on three more.
pub skip_loop_same :
    (left m : ℕ) (xs ys : Bytes)
    → bytes_of_runes left ys + 3 ≤ m
    → m ≤ length ys
    → take m xs ≡ take m ys
    → SameSkip left xs ys
unfolding skip_loop bytes_of_runes SameSkip
skip_loop_same zero m xs ys le short same off = refl
skip_loop_same (suc left) m xs [] le short same off = absurd (omega arith)
skip_loop_same (suc left) m xs (c ∷ cs) le short same off =
    let (some_byte, within) = decode_rune-size c cs in
    let sz = (decode_rune (c ∷ cs)).1 in
    let rune = decode_rune_same m xs (c ∷ cs) (omega (arith, le, some_byte)) same in
    let whole : sz + (m - sz) ≡ m = omega (arith, le) in
    let rest : take (m - sz) (drop sz xs) ≡ take (m - sz) (drop sz (c ∷ cs)) =
      take-drop (m - sz) sz xs
      ∙ ap (λ k. drop sz (take k xs)) whole
      ∙ ap (drop sz) same
      ∙ sym (ap (λ k. drop sz (take k (c ∷ cs))) whole)
      ∙ sym (take-drop (m - sz) sz (c ∷ cs)) in
    ap (λ d. skip_loop left (drop d.1 xs) ((off + d.1) % 2 ^ 32)) rune
    ∙ skip_loop_same left (m - sz) (drop sz xs) (drop sz (c ∷ cs)) (omega (arith, le))
        (omega (arith, short, length-drop sz (c ∷ cs))) rest ((off + sz) % 2 ^ 32)

-- What is read of a text and the bytes behind it.
pub take-drop-append :
    (m k n : ℕ) (text after : Bytes)
    → m ≤ k
    → n + m ≤ length text
    → take m (take k (drop n (text ++ after))) ≡ take m (drop n text)
take-drop-append zero k zero text after le fits = refl
take-drop-append (suc m) zero zero text after le fits = absurd (omega arith)
take-drop-append (suc m) (suc k) zero [] after le fits = absurd (omega arith)
take-drop-append (suc m) (suc k) zero (c ∷ text) after le fits =
    ap (λ xs. c ∷ xs) (take-drop-append m k zero text after (omega arith) (omega arith))
take-drop-append zero k (suc n) [] after le fits = refl
take-drop-append (suc m) k (suc n) [] after le fits = absurd (omega arith)
take-drop-append m k (suc n) (c ∷ text) after le fits =
    take-drop-append m k n text after le (omega arith)
