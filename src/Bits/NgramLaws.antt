-- ===== src/Bits/NgramLaws.antt =====
-- bits.go: splitNGrams gives every three neighbouring runes.
use zoekt_archived.Prelude.{
  ℕ, zero, suc, ◌+◌, ◌-◌, ◌%◌, ◌^◌, ◌≡◌, refl, ap, ◌∙◌, false, List, [], ◌∷◌, Bytes, length, drop,
  ltb, if◌then◌else◌, arith,
}
use zoekt_archived.Bits.Utf8.{decode_rune}
use zoekt_archived.Bits.Ngrams.{RuneNgramOff, runes_to_ngram, entry, split_loop, split_ngrams}

-- A rune of a text, with the places where it starts and ends, on uint32.
pub record Place : Type 0 where
  pub rune : ℕ
  pub start : ℕ
  pub end : ℕ

unfoldable pub places : ℕ → Bytes → ℕ → List Place
unfolding decode_rune
places fuel [] i = []
places zero (c ∷ cs) i = []
places (suc fuel) (c ∷ cs) i =
    let (r, sz) = decode_rune (c ∷ cs) in
    record { rune = r; start = i; end = (i + sz) % 2 ^ 32 }
    ∷ places fuel (drop sz (c ∷ cs)) ((i + sz) % 2 ^ 32)

-- Each three neighbours: their n-gram, the bytes from the start of the first to the end of the third on uint32,
-- the start of the first, and the index of the third.
unfoldable pub windows : ℕ → List Place → List RuneNgramOff
unfolding runes_to_ngram
windows k (x ∷ y ∷ z ∷ zs) =
    record {
      ngram = runes_to_ngram (x.rune, (y.rune, z.rune));
      byte_size = (z.end + (2 ^ 32 - x.start)) % 2 ^ 32;
      byte_off = x.start;
      rune_off = k % 2 ^ 32;
    }
    ∷ windows (k + 1) (y ∷ z ∷ zs)
windows k _ = []

split_loop-windows :
    (fuel : ℕ) (str : Bytes) (x y : Place) (a o i k : ℕ)
    → split_loop fuel str (a, (x.rune, y.rune)) (o, (x.start, y.start)) i (k + 2)
      ≡ windows (k + 2) (x ∷ y ∷ places fuel str i)
unfolding split_loop windows places entry
split_loop-windows fuel [] x y a o i k = refl
split_loop-windows zero (c ∷ cs) x y a o i k = refl
split_loop-windows (suc fuel) (c ∷ cs) x y a o i k =
    let r = (decode_rune (c ∷ cs)).0 in
    let sz = (decode_rune (c ∷ cs)).1 in
    let rest = drop sz (c ∷ cs) in
    let end = (i + sz) % 2 ^ 32 in
    let z : Place = record { rune = r; start = i; end = end } in
    let first = entry (x.rune, (y.rune, r)) x.start end (k + 2) in
    let later : ℕ → List RuneNgramOff =
      λ j. split_loop fuel rest (x.rune, (y.rune, r)) (x.start, (y.start, i)) end j in
    let full : ltb (k + 2 + 1) 3 ≡ false = ground arith in
    let there : k + 2 + 1 ≡ k + 1 + 2 = omega arith in
    let back : k + 1 + 2 ≡ k + 2 + 1 = omega arith in
    ap (λ b. if b then later (k + 2 + 1) else first ∷ later (k + 2 + 1)) full
    ∙ ap (λ j. first ∷ later j) there
    ∙ ap (λ ns. first ∷ ns) (split_loop-windows fuel rest y z x.rune x.start end (k + 1))
    ∙ ap (λ j. first ∷ windows j (y ∷ z ∷ places fuel rest end)) back

split_loop_second :
    (fuel : ℕ) (str : Bytes) (y : Place) (a b o p i : ℕ)
    → split_loop fuel str (a, (b, y.rune)) (o, (p, y.start)) i 1 ≡ windows 2 (y ∷ places fuel str i)
unfolding split_loop windows places
split_loop_second fuel [] y a b o p i = refl
split_loop_second zero (c ∷ cs) y a b o p i = refl
split_loop_second (suc fuel) (c ∷ cs) y a b o p i =
    let sz = (decode_rune (c ∷ cs)).1 in
    let end = (i + sz) % 2 ^ 32 in
    let z : Place = record { rune = (decode_rune (c ∷ cs)).0; start = i; end = end } in
    split_loop-windows fuel (drop sz (c ∷ cs)) y z b p end 0

-- splitNGrams gives an entry for each three neighbouring runes of the text: their n-gram, the bytes from the start
-- of the first to the end of the third, the place where the first starts, and the index of the third, on uint32.
pub split_ngrams-windows : (str : Bytes) → split_ngrams str ≡ windows 2 (places (length str) str 0)
unfolding split_ngrams split_loop windows places
split_ngrams-windows [] = refl
split_ngrams-windows (c ∷ cs) =
    let sz = (decode_rune (c ∷ cs)).1 in
    let end = (0 + sz) % 2 ^ 32 in
    let y : Place = record { rune = (decode_rune (c ∷ cs)).0; start = 0; end = end } in
    split_loop_second (length cs) (drop sz (c ∷ cs)) y 0 0 0 0 end
