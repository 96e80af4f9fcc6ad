-- ===== src/Builder/Document.antt =====
-- indexbuilder.go: a Document, and what Add does with it before it reaches the builder.
use zoekt_archived.Prelude.{
  ℕ, ◌%◌, ◌^◌, Bool, true, false, List, [], ◌∷◌, ◌++◌, Option, none, some, Bytes, length, ltb,
  if◌then◌else◌,
}
use zoekt_archived.Provider.Fill.{index_byte}
use zoekt_archived.Bits.Deltas.{DocumentSection}

pub record Document : Type 0 where
  pub name : Bytes
  pub content : Bytes
  pub branches : List Bytes
  pub sub_repository_path : Bytes
  pub language : Bytes
  pub skip_reason : Bytes
  pub symbols : List DocumentSection

-- The errors of Add.
pub data Reason : Type 0 where
  sections_overlap : Reason
  past_end : Reason
  not_below_subrepo : Reason
  no_rune_at_section : Reason
  unknown_subrepo : Reason
  no_branch : Reason
  too_many_languages : Reason

abbrev pub binary : Bytes
binary = b'b' ∷ b'i' ∷ b'n' ∷ b'a' ∷ b'r' ∷ b'y' ∷ []

-- "binary content at byte offset "
abbrev pub binary_content : Bytes
binary_content =
    binary
    ++ b' ' ∷ b'c' ∷ b'o' ∷ b'n' ∷ b't' ∷ b'e' ∷ b'n' ∷ b't' ∷ b' ' ∷ b'a' ∷ b't' ∷ b' ' ∷ b'b'
      ∷ b'y' ∷ b't' ∷ b'e' ∷ b' ' ∷ b'o' ∷ b'f' ∷ b'f' ∷ b's' ∷ b'e' ∷ b't' ∷ b' ' ∷ []

-- "NOT-INDEXED: "
abbrev pub not_indexed_marker : Bytes
not_indexed_marker =
    b'N' ∷ b'O' ∷ b'T' ∷ b'-' ∷ b'I' ∷ b'N' ∷ b'D' ∷ b'E' ∷ b'X' ∷ b'E' ∷ b'D' ∷ b':' ∷ b' ' ∷ []

-- What Add calls outside this repository: "%d" of fmt.Sprintf, sort.Sort by the start, filepath.Rel with
-- `none` for its error, and the sum of hash/crc64.
pub record Platform : Type 0 where
  pub decimal : ℕ → Bytes
  pub sort_sections : List DocumentSection → List DocumentSection
  pub rel : Bytes → Bytes → Option Bytes
  pub checksum : Bytes → Bytes

unfoldable pub is_blank : Bytes → Bool
is_blank [] = true
is_blank (b ∷ bs) = false

module _ (p : Platform) where
  unfoldable pub mark_binary : Document → Document
  unfolding index_byte
  mark_binary d = elim (index_byte 0 d.content) [
    | none ↦ d
    | some i ↦ record d { skip_reason = binary_content ++ p.decimal i; language = binary }
  ]

-- The content of a document that has a reason to be skipped.
unfoldable pub mark_skipped : Document → Document
unfolding is_blank
mark_skipped d =
    if is_blank d.skip_reason
    then d
    else record d { content = not_indexed_marker ++ d.skip_reason; symbols = [] }

-- The loop over the sorted sections, behind the section `last`.
unfoldable pub sections_loop : ℕ → List DocumentSection → ℕ × Bool
sections_loop last [] = (last, false)
sections_loop last (s ∷ secs) =
    let rest = sections_loop s.end secs in if ltb s.start last then (last, true) else rest

-- The tests on the sections; the first has none before it.
unfoldable pub check_sections : List DocumentSection → Bytes → Option Reason
unfolding sections_loop
check_sections secs content =
    let (end, overlap) = sections_loop 0 secs in
    if overlap
    then some sections_overlap
    else if ltb (length content % 2 ^ 32) end
    then some past_end
    else none
