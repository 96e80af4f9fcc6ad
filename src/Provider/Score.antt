-- ===== src/Provider/Score.antt =====
-- contentprovider.go and bits.go: findSection, matchScore and byteClass.
use zoekt_archived.Prelude.{
  ℕ, ◌+◌, ◌-◌, ◌%◌, ◌^◌, Bool, true, false, not, ◌&&◌, ◌||◌, List, [], ◌∷◌, Option, none, some,
  Bytes, length, get_or, ltb, leb, ◌==◌, if◌then◌else◌,
}
use zoekt_archived.Bits.Deltas.{DocumentSection}
use zoekt_archived.Provider.Search.{sort_search}

abbrev pub zero_doc_section : DocumentSection
zero_doc_section = record { start = 0; end = 0 }

unfoldable pub find_section : List DocumentSection → ℕ → ℕ → Option DocumentSection
unfolding sort_search
find_section secs off sz =
    let end = (off + sz) % 2 ^ 32 in
    let j = sort_search (length secs) (λ i. leb end (get_or secs i zero_doc_section).end) in
    let sec = get_or secs j zero_doc_section in
    if j == length secs
    then none
    else if leb sec.start off && leb end sec.end
    then some sec
    else none

pub data ByteClass : Type 0 where
  class_char : ByteClass
  class_digit : ByteClass
  class_punct : ByteClass
  class_space : ByteClass
  class_other : ByteClass

unfoldable pub byte_class : ℕ → ByteClass
byte_class c =
    if (leb 97 c && leb c 122) || (leb 65 c && leb c 90)
    then class_char
    else if leb 48 c && leb c 57
    then class_digit
    else if c == 32 || c == 10
    then class_space
    else if c == 46 || (c == 44 || (c == 59 || (c == 34 || c == 39)))
    then class_punct
    else class_other

abbrev pub same_class : ByteClass → ByteClass → Bool
same_class class_char class_char = true
same_class class_digit class_digit = true
same_class class_punct class_punct = true
same_class class_space class_space = true
same_class class_other class_other = true
same_class _ _ = false

-- LineFragmentMatch and LineMatch
pub record Fragment : Type 0 where
  pub line_offset : ℕ
  pub offset : ℕ
  pub match_length : ℕ

pub record LineMatch : Type 0 where
  pub line : Bytes
  pub line_start : ℕ
  pub line_end : ℕ
  pub line_number : ℕ
  pub file_name : Bool
  pub score : ℕ
  pub fragments : List Fragment

-- Whether a match starts, and ends, between two bytes of different classes. `none` is a panic.
unfoldable pub start_boundary : Bytes → Fragment → Bool
unfolding byte_class
start_boundary line f =
    ltb f.line_offset (length line)
    && (f.line_offset == 0
        || not (
            same_class (byte_class (get_or line (f.line_offset - 1) 0))
              (byte_class (get_or line f.line_offset 0))))

unfoldable pub end_boundary : Bytes → Fragment → Option Bool
unfolding byte_class
end_boundary line f =
    let end = f.line_offset + f.match_length in
    if end == 0
    then some false
    else if end == length line
    then some true
    else if ltb (length line) end
    then none
    else some
        (not (same_class (byte_class (get_or line (end - 1) 0)) (byte_class (get_or line end 0))))

-- The constants are whole numbers, and so are their sums and (7000 + 4000) / 2, so float64 holds each score.
unfoldable pub word_score : Bool → Bool → ℕ
word_score true true = 500
word_score true false = 50
word_score false true = 50
word_score false false = 0

unfoldable pub symbol_score : Option DocumentSection → Fragment → ℕ
symbol_score none f = 0
symbol_score (some sec) f =
    let start_match = sec.start == f.offset in
    let end_match = sec.end == (f.offset + f.match_length) % 2 ^ 32 in
    if start_match && end_match then 7000 else if start_match || end_match then 5500 else 4000

unfoldable pub fragment_score : List DocumentSection → Bytes → Fragment → Option ℕ
unfolding start_boundary end_boundary word_score symbol_score find_section
fragment_score secs line f = elim (end_boundary line f) as (λ _. Option ℕ) [
  | none ↦ none
  | some e ↦ some (
      word_score (start_boundary line f) e
      + symbol_score (find_section secs f.offset f.match_length) f)
]

-- The loop of matchScore.
unfoldable pub score_loop : List DocumentSection → Bytes → ℕ → List Fragment → Option ℕ
unfolding fragment_score
score_loop secs line best [] = some best
score_loop secs line best (f ∷ fs) = elim (fragment_score secs line f) as (λ _. Option ℕ) [
  | none ↦ none
  | some score ↦ score_loop secs line (if ltb best score then score else best) fs
]

unfoldable pub match_score : List DocumentSection → LineMatch → Option ℕ
unfolding score_loop
match_score secs m = score_loop secs m.line 0 m.fragments
