-- ===== src/Builder/CheckLaws.antt =====
-- indexbuilder.go: CheckText counts the n-grams of splitNGrams.
use zoekt_archived.Prelude.{
  ℕ, zero, suc, ◌+◌, ◌%◌, ◌^◌, ◌≤◌, ◌≡◌, refl, ap, sym, ◌∙◌, Bool, true, false, not, ◌&&◌, ◌||◌,
  List, [], ◌∷◌, map, Option, none, some, Bytes, length, length-drop, drop, ltb, leb, ◌==◌,
  if◌then◌else◌, if-intro, arith,
}
use zoekt_archived.Bits.Utf8.{decode_rune}
use zoekt_archived.Bits.RuneSize.{decode_rune-size}
use zoekt_archived.Bits.Ngrams.{
  Runes, RuneNgramOff, entry, runes_to_ngram, split_loop, split_ngrams,
}
use zoekt_archived.Builder.Postings.{shift_gram}
use zoekt_archived.Builder.CheckText.{
  Doubt, too_small, binary_at, too_many_trigrams, max_trigram_count, is_member, insert, text_loop,
  check_text,
}

unfoldable pub has_zero : Bytes → Bool
has_zero [] = false
has_zero (c ∷ cs) = (c == 0) || has_zero cs

-- Only the byte 0 is the rune 0.
decode_rune-positive :
    (c : ℕ) (cs : Bytes) → (c == 0) ≡ false → ((decode_rune (c ∷ cs)).0 == 0) ≡ false
unfolding decode_rune
decode_rune-positive c [] pos = ground arith
decode_rune-positive c (d ∷ []) pos = ground arith
decode_rune-positive c (d ∷ e ∷ []) pos = ground arith
decode_rune-positive c (d ∷ e ∷ f ∷ cs) pos = ground arith

-- No byte of a rune but its first is 0.
decode_rune-has_zero :
    (c : ℕ) (cs : Bytes)
    → (c == 0) ≡ false
    → has_zero (drop (decode_rune (c ∷ cs)).1 (c ∷ cs)) ≡ has_zero (c ∷ cs)
unfolding decode_rune has_zero
decode_rune-has_zero c [] pos = ground arith
decode_rune-has_zero c (d ∷ []) pos = ground arith
decode_rune-has_zero c (d ∷ e ∷ []) pos = ground arith
decode_rune-has_zero c (d ∷ e ∷ f ∷ cs) pos = ground arith

unfoldable pub insert_all : List ℕ → List ℕ → List ℕ
unfolding insert
insert_all set [] = set
insert_all set (n ∷ ns) = insert_all (insert n set) ns

length-insert_all : (set ns : List ℕ) → length set ≤ length (insert_all set ns)
unfolding insert_all insert
length-insert_all set [] = omega arith
length-insert_all set (n ∷ ns) =
    let later = length-insert_all (insert n set) ns in
    let grown : length set ≤ length (insert n set) =
      if-intro (λ xs. length set ≤ length xs) (is_member n set) set (n ∷ set) (λ _. omega arith)
        (λ _. omega arith) in
    omega (arith, later, grown)

abbrev pub is_none : Option Doubt → Bool
is_none none = true
is_none (some d) = false

unfoldable pub ngrams_of : List RuneNgramOff → List ℕ
ngrams_of es = map (λ e. e.ngram) es

-- How many of the last two runes are set after k runes, none of which is 0.
abbrev IsWarm : Runes → ℕ → Type 0
IsWarm cur k = ((cur.1.0 == 0) ≡ ltb k 2) × ((cur.1.1 == 0) ≡ ltb k 1)

-- The text is accepted, where the set of n-grams is what it was and those of the text.
abbrev accepts : Bytes → List ℕ → Bool
accepts text set = not (has_zero text) && leb (length set) 20000

-- A round, by whether its first byte is 0 and whether it is one of the first two.
round_lem :
    (z start has : Bool) (n ng : ℕ) (set later : List ℕ) (loop : List ℕ → Option Doubt)
    → (z ≡ true → has ≡ true)
    → (z ≡ false
        → (s : List ℕ) → length s ≤ 20000
        → is_none (loop s) ≡ (not has && leb (length (insert_all s later)) 20000))
    → length set ≤ 20000
    → (let set' = if start then set else insert ng set in
        is_none (
          if z
          then some (binary_at n)
          else if not start && ltb max_trigram_count (length set')
          then some too_many_trigrams
          else loop set')
        ≡ (not has && leb (length (insert_all set (if start then later else ng ∷ later))) 20000))
unfolding insert_all
round_lem true start has n ng set later loop zero_byte ih few =
    let found = zero_byte refl in ground (arith, found)
round_lem false true has n ng set later loop zero_byte ih few = ih refl set few
round_lem false false has n ng set later loop zero_byte ih few =
    let grown = insert ng set in
    let more = length-insert_all grown later in
    if-intro (λ r. is_none r ≡ (not has && leb (length (insert_all grown later)) 20000))
      (ltb 20000 (length grown)) (some too_many_trigrams) (loop grown)
      (λ over. ground (arith, over, more)) (λ within. ih refl grown (ground (arith, within)))

ngrams_of_if :
    (test : Bool) (e : RuneNgramOff) (es : List RuneNgramOff)
    → ngrams_of (if test then es else e ∷ es)
      ≡ (if test then ngrams_of es else e.ngram ∷ ngrams_of es)
unfolding ngrams_of
ngrams_of_if true e es = refl
ngrams_of_if false e es = refl

text_loop_lem :
    (fuel : ℕ) (text : Bytes) (byte_count : ℕ) (cur offs : Runes) (i k : ℕ) (set : List ℕ)
    → length text ≤ fuel
    → IsWarm cur k
    → length set ≤ 20000
    → is_none (text_loop fuel text byte_count cur set)
      ≡ accepts text (insert_all set (ngrams_of (split_loop fuel text cur offs i k)))
unfolding text_loop split_loop has_zero shift_gram insert_all ngrams_of
text_loop_lem fuel [] n cur offs i k set enough warm few = ground arith
text_loop_lem zero (c ∷ cs) n cur offs i k set enough warm few = absurd (omega arith)
text_loop_lem (suc fuel) (c ∷ cs) n (a, (b, d)) (o, (p, q)) i k set enough (second, third) few =
    let r = decode_rune (c ∷ cs) in
    let rest = drop r.1 (c ∷ cs) in
    let now : Runes = (b, (d, r.0)) in
    let offs' : Runes = (p, (q, i)) in
    let end = (i + r.1) % 2 ^ 32 in
    let (some_bytes, _) = decode_rune-size c cs in
    let left = length-drop r.1 (c ∷ cs) in
    let es = split_loop fuel rest now offs' end (k + 1) in
    let start : (b == 0) ≡ ltb (k + 1) 3 = ground (arith, second) in
    let step =
      round_lem (c == 0) (b == 0) (has_zero (c ∷ cs)) n (runes_to_ngram now) set (ngrams_of es)
        (λ s. text_loop fuel rest (n + r.1) now s) (λ zero_byte. ground (arith, zero_byte))
        (λ other s le.
          let warm : IsWarm now (k + 1) =
            (ground (arith, third), ground (arith, decode_rune-positive c cs other)) in
          text_loop_lem fuel rest (n + r.1) now offs' end (k + 1) s (omega (arith, left)) warm le
          ∙ ap (λ z. not z && leb (length (insert_all s (ngrams_of es))) 20000)
              (decode_rune-has_zero c cs other))
        few in
    let grams =
      ap (λ t. if t then ngrams_of es else runes_to_ngram now ∷ ngrams_of es) start
      ∙ sym (ngrams_of_if (ltb (k + 1) 3) (entry now p end k) es) in
    step ∙ ap (λ ns. accepts (c ∷ cs) (insert_all set ns)) grams

-- CheckText accepts a text of three bytes or more exactly if no byte of it is 0 and splitNGrams finds no more
-- than maxTrigramCount different n-grams in it.
pub check_text_lem :
    (text : Bytes)
    → 3 ≤ length text
    → is_none (check_text text) ≡ (
        not (has_zero text)
        && leb (length (insert_all [] (ngrams_of (split_ngrams text)))) max_trigram_count)
unfolding check_text split_ngrams
check_text_lem [] long = absurd (omega arith)
check_text_lem (c ∷ cs) long =
    let test : ltb (length (c ∷ cs)) 3 ≡ false = ground arith in
    ap
      (λ b.
        is_none
          (if b then some too_small else text_loop (length (c ∷ cs)) (c ∷ cs) 0 (0, (0, 0)) []))
      test
    ∙ text_loop_lem (length (c ∷ cs)) (c ∷ cs) 0 (0, (0, 0)) (0, (0, 0)) 0 0 [] (omega arith)
        (refl, refl) (omega arith)

pub check_text-short :
    (c : ℕ) (cs : Bytes) → ltb (length (c ∷ cs)) 3 ≡ true → is_none (check_text (c ∷ cs)) ≡ false
unfolding check_text
check_text-short c cs short =
    ap
      (λ b.
        is_none
          (if b then some too_small else text_loop (length (c ∷ cs)) (c ∷ cs) 0 (0, (0, 0)) []))
      short
