-- ===== src/Tests/Building.antt =====
-- indexbuilder.go on small inputs.
use zoekt_archived.Prelude.{
  ℕ, ◌+◌, ◌≡◌, refl, false, List, [], ◌∷◌, ◌++◌, none, some, Bytes, drop, inl, arith,
}
use zoekt_archived.Bits.Deltas.{from_deltas}
use zoekt_archived.Index.File.{ok}
use zoekt_archived.Index.Writing.{flat}
use zoekt_archived.Provider.Offset.{find_offset}
use zoekt_archived.Provider.OffsetLaws.{bytes_of_runes}
use zoekt_archived.Builder.Map.{find}
use zoekt_archived.Builder.Postings.{PostingsBuilder, new_postings_builder, new_searchable_string}
use zoekt_archived.Builder.PostingLaws.{IsPosted, offsets_of, grams_of}
use zoekt_archived.Builder.Occurrences.{
  new_postings_builder-IsPosted, new_searchable_string-IsPosted,
}
use zoekt_archived.Builder.OffsetTables.{new_postings_builder-IsIndexed}
use zoekt_archived.Builder.Apart.{StartsWhole}
use zoekt_archived.Builder.Document.{Document, no_branch, Platform}
use zoekt_archived.Builder.Add.{IndexBuilder, refused, crashed, add, prepare_document}
use zoekt_archived.Builder.AddLaws.{Result}
use zoekt_archived.Builder.AddOutcome.{add_lem}
use zoekt_archived.Builder.AddTables.{IsBuilt, add-IsBuilt}
use zoekt_archived.Tests.Postings.{base_128, base_128-IsVarint}

-- Runes of one, two and four bytes.
abbrev first_text : Bytes
first_text = 97 ∷ 195 ∷ 169 ∷ 240 ∷ 159 ∷ 152 ∷ 128 ∷ []

abbrev second_text : Bytes
second_text = 98 ∷ 195 ∷ 169 ∷ 99 ∷ []

abbrev after_first : PostingsBuilder
after_first = (new_searchable_string base_128 new_postings_builder first_text []).builder

new_searchable_string-IsPosted_example :
    IsPosted base_128 after_first ([] ++ grams_of 0 first_text)
    × ((g : ℕ)
        → from_deltas base_128 (find g [] after_first.postings)
          ≡ some (offsets_of g ([] ++ grams_of 0 first_text)))
unfolding new_postings_builder
new_searchable_string-IsPosted_example =
    new_searchable_string-IsPosted base_128 base_128-IsVarint new_postings_builder first_text [] []
      (omega arith) tt (new_postings_builder-IsPosted base_128)

abbrev after_second : PostingsBuilder
after_second = (new_searchable_string base_128 after_first second_text []).builder

abbrev both_texts : List Bytes
both_texts = first_text ∷ second_text ∷ []

-- The first text ends inside a rune, and the second goes on with it: rune 1 of the second is at byte 1.
abbrev cut_text : Bytes
cut_text = 97 ∷ 195 ∷ []

abbrev after_cut : PostingsBuilder
after_cut =
    (new_searchable_string base_128
      (new_searchable_string base_128 new_postings_builder cut_text []).builder (169 ∷ 98 ∷ [])
      []).builder

rune_across_texts :
    (find_offset false
        (record {
          sample = after_cut.rune_offsets;
          rune_ends = after_cut.end_runes;
          starts = 0 ∷ 2 ∷ 4 ∷ [];
        })
        (λ off. ok (drop off (97 ∷ 195 ∷ 169 ∷ 98 ∷ [])))
        1
        1
      ≡ ok 2)
    × (bytes_of_runes 1 (169 ∷ 98 ∷ []) ≡ 1)
unfolding new_postings_builder new_searchable_string find_offset bytes_of_runes
rune_across_texts = (refl, refl)

abbrev pub platform : Platform
platform = record {
  decimal = λ n. (48 + n) ∷ [];
  sort_sections = λ secs. secs;
  rel = λ base path. none;
  checksum = λ content. 0 ∷ 0 ∷ 0 ∷ 0 ∷ 0 ∷ 0 ∷ 0 ∷ 0 ∷ [];
}

abbrev pub start_builder : IndexBuilder
start_builder = record {
  content_strings = [];
  name_strings = [];
  doc_sections = [];
  rune_doc_sections = [];
  checksums = [];
  branch_masks = [];
  sub_repos = [];
  content_postings = new_postings_builder;
  name_postings = new_postings_builder;
  branches = (109 ∷ []) ∷ [];
  sub_repo_indices = ([], 0) ∷ [];
  language_map = [];
  languages = [];
}

-- A document with a symbol, in the one branch.
abbrev pub document : Document
document = record {
  name = 102 ∷ [];
  content = first_text;
  branches = (109 ∷ []) ∷ [];
  sub_repository_path = [];
  language = 67 ∷ [];
  skip_reason = [];
  symbols = record { start = 1; end = 3 } ∷ [];
}

add_lem_example :
    Result base_128 platform start_builder
      (prepare_document platform document)
      (add base_128 platform start_builder document).1
      (add base_128 platform start_builder document).0
add_lem_example = add_lem base_128 platform start_builder document

start-IsBuilt : IsBuilt start_builder
start-IsBuilt = record {
  content_tables = new_postings_builder-IsIndexed;
  name_tables = new_postings_builder-IsIndexed;
  name_count = refl;
  section_count = refl;
  mask_count = refl;
  sub_repo_count = refl;
  language_count = refl;
}

add-IsBuilt_example : IsBuilt (add base_128 platform start_builder document).0
unfolding add prepare_document flat StartsWhole
add-IsBuilt_example =
    add-IsBuilt base_128 platform start_builder document start-IsBuilt (omega arith) (omega arith)
      (inl (omega arith)) (inl (omega arith)) refl

-- Refused for its branch, a document still is in the tables that the next one is added to.
refused_and_indexed :
    ((add base_128 platform start_builder (record document { branches = (120 ∷ []) ∷ [] })).1
      ≡ refused no_branch)
    × (((add base_128 platform start_builder
            (record document { branches = (120 ∷ []) ∷ [] })).0.content_strings
          ≡ [])
        × ((add base_128 platform start_builder
              (record document { branches = (120 ∷ []) ∷ [] })).0.content_postings.end_runes
            ≡ 3 ∷ []))
unfolding add prepare_document new_postings_builder
refused_and_indexed = (refl, (refl, refl))

-- Sections that are within the content as far as Add tests them, and an odd number of places found.
odd_boundaries :
    (add base_128 platform start_builder (record document {
      symbols = record { start = 0; end = 100 } ∷ record { start = 100; end = 3 } ∷ [];
    })).1
    ≡ crashed
unfolding add prepare_document new_postings_builder
odd_boundaries = refl
