-- ===== src/Builder/CheckText.antt =====
-- indexbuilder.go: CheckText.
use zoekt_archived.Prelude.{
  ℕ, zero, suc, ◌+◌, Bool, false, not, ◌&&◌, ◌||◌, List, [], ◌∷◌, Option, none, some, Bytes, length,
  drop, ltb, ◌==◌, if◌then◌else◌,
}
use zoekt_archived.Bits.Utf8.{decode_rune}
use zoekt_archived.Bits.Ngrams.{Runes, runes_to_ngram}
use zoekt_archived.Builder.Postings.{shift_gram}

-- The errors of CheckText.
pub data Doubt : Type 0 where
  too_small : Doubt
  binary_at : ℕ → Doubt
  too_many_trigrams : Doubt

abbrev pub max_trigram_count : ℕ
max_trigram_count = 20000

-- The map trigrams, a set of n-grams.
unfoldable pub is_member : ℕ → List ℕ → Bool
is_member n [] = false
is_member n (m ∷ set) = (m == n) || is_member n set

unfoldable pub insert : ℕ → List ℕ → List ℕ
unfolding is_member
insert n set = if is_member n set then set else n ∷ set

-- Each round takes a byte or more, so the length of the content is enough fuel.
unfoldable pub text_loop : ℕ → Bytes → ℕ → Runes → List ℕ → Option Doubt
unfolding decode_rune shift_gram insert runes_to_ngram
text_loop fuel [] byte_count cur trigrams = none
text_loop zero (c ∷ cs) byte_count cur trigrams = none
text_loop (suc fuel) (c ∷ cs) byte_count cur trigrams =
    let r = decode_rune (c ∷ cs) in
    let now = shift_gram cur r.0 in
    let set = if now.0 == 0 then trigrams else insert (runes_to_ngram now) trigrams in
    let rest = text_loop fuel (drop r.1 (c ∷ cs)) (byte_count + r.1) now set in
    if c == 0
    then some (binary_at byte_count)
    else if not (now.0 == 0) && ltb max_trigram_count (length set)
    then some too_many_trigrams
    else rest

unfoldable pub check_text : Bytes → Option Doubt
unfolding text_loop
check_text [] = none
check_text (c ∷ cs) =
    if ltb (length (c ∷ cs)) 3
    then some too_small
    else text_loop (length (c ∷ cs)) (c ∷ cs) 0 (0, (0, 0)) []
