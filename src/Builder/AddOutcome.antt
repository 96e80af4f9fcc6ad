-- ===== src/Builder/AddOutcome.antt =====
-- indexbuilder.go: Add on every outcome.
use zoekt_archived.Prelude.{
  ◌%◌, refl, List, [], Option, none, some, Bytes, length, if◌then◌else◌, if-intro, ltb, ◌^◌, ◌≡◌,
}
use zoekt_archived.Bits.Deltas.{Varint, DocumentSection}
use zoekt_archived.Builder.Postings.{PostingsBuilder, done, failed, panicked, new_searchable_string}
use zoekt_archived.Builder.Document.{
  Document, Reason, sections_overlap, past_end, not_below_subrepo, no_rune_at_section,
  unknown_subrepo, no_branch, too_many_languages, Platform, check_sections, sections_loop,
}
use zoekt_archived.Builder.Add.{
  IndexBuilder, Added, refused, crashed, add_entry, add_name, add_content, add, prepare_document,
  is_outside, check_document,
}
use zoekt_archived.Builder.AddLaws.{kept, Result, Both, moved, add_entry-Result}

module _ (v : Varint) (p : Platform) (b : IndexBuilder) (d : Document) where
  add_name-Result :
      (contents : PostingsBuilder) (secs : List DocumentSection)
      → (new_searchable_string v b.content_postings d.content d.symbols).rune_sections ≡ done secs
      → Both v p b d (add_name v p (record b { content_postings = contents }) d secs)
  unfolding add_name Result Both
  add_name-Result contents secs here =
      let r = new_searchable_string v b.name_postings d.name [] in
      elim r.rune_sections
        as (λ o. Both v p b d (elim o as (λ _. IndexBuilder × Added) [
          | done rune_secs ↦ add_entry p (moved b contents r.builder) d secs
          | failed ↦ (moved b contents r.builder, refused no_rune_at_section)
          | panicked ↦ (moved b contents r.builder, crashed)
        ])) [
          | done rune_secs ↦ add_entry-Result v p b contents r.builder d secs here
          | failed ↦ kept
          | panicked ↦ kept
        ]

  add_content-Result : Both v p b d (add_content v p b d)
  unfolding add_content Result Both
  add_content-Result =
      let r = new_searchable_string v b.content_postings d.content d.symbols in
      let b' : IndexBuilder = record b { content_postings = r.builder } in
      elim r.rune_sections
          as (λ o.
            r.rune_sections ≡ o
            → Both v p b d (elim o as (λ _. IndexBuilder × Added) [
              | done rune_secs ↦ add_name v p b' d rune_secs
              | failed ↦ (b', refused no_rune_at_section)
              | panicked ↦ (b', crashed)
            ])) [
              | done rune_secs ↦ λ here. add_name-Result r.builder rune_secs here
              | failed ↦ λ _. kept {names = b.name_postings}
              | panicked ↦ λ _. kept {names = b.name_postings}
            ]
        refl

-- The errors that Add returns before it changes the builder.
IsEarly : Option Reason → Type 0
IsEarly (some no_rune_at_section) = ⊥
IsEarly (some unknown_subrepo) = ⊥
IsEarly (some no_branch) = ⊥
IsEarly (some too_many_languages) = ⊥
IsEarly _ = Unit

check_sections-IsEarly :
    (secs : List DocumentSection) (content : Bytes) → IsEarly (check_sections secs content)
unfolding check_sections IsEarly
check_sections-IsEarly secs content =
    let (end, overlap) = sections_loop 0 secs in
    let second = if ltb (length content % 2 ^ 32) end then some past_end else none in
    if-intro IsEarly overlap (some sections_overlap) second (λ _. tt)
      (λ _.
        if-intro IsEarly (ltb (length content % 2 ^ 32) end) (some past_end) none (λ _. tt)
          (λ _. tt))

check_document-IsEarly : (p : Platform) (d : Document) → IsEarly (check_document p d)
unfolding check_document IsEarly
check_document-IsEarly p d =
    elim (check_sections d.symbols d.content)
        as (λ o.
          IsEarly o
          → IsEarly (elim o as (λ _. Option Reason) [
            | some reason ↦ some reason
            | none ↦ if is_outside p d then some not_below_subrepo else none
          ])) [
            | some reason ↦ λ early. early
            | none ↦ λ _.
                if-intro IsEarly (is_outside p d) (some not_below_subrepo) none (λ _. tt) (λ _. tt)
          ]
      (check_sections-IsEarly d.symbols d.content)

early_lem :
    (v : Varint) (p : Platform) (b : IndexBuilder) (d : Document) (reason : Reason)
    → IsEarly (some reason)
    → Result v p b d (refused reason) b
unfolding IsEarly Result
early_lem v p b d sections_overlap early = refl
early_lem v p b d past_end early = refl
early_lem v p b d not_below_subrepo early = refl
early_lem v p b d no_rune_at_section early = absurd early
early_lem v p b d unknown_subrepo early = absurd early
early_lem v p b d no_branch early = absurd early
early_lem v p b d too_many_languages early = absurd early

-- Where Add succeeds, contents, names, sections, branch masks, subrepositories and languages have one entry more,
-- for the document as Add prepared it, the checksums end with its checksum, and the sections in runes with those
-- that newSearchableString gave. Where the sections overlap or go past the end, or the path is not below the
-- subrepository, the builder is as before. On the other errors, and where it panics, these lists are as before,
-- but with too many languages, where all are appended to but languages.
pub add_lem :
    (v : Varint) (p : Platform) (b : IndexBuilder) (doc : Document)
    → Result v p b (prepare_document p doc) (add v p b doc).1 (add v p b doc).0
unfolding add Both
add_lem v p b doc =
    let d = prepare_document p doc in
    elim (check_document p d)
        as (λ o.
          IsEarly o
          → Both v p b d (elim o as (λ _. IndexBuilder × Added) [
            | some reason ↦ (b, refused reason)
            | none ↦ add_content v p b d
          ])) [ some reason ↦ early_lem v p b d reason | none ↦ λ _. add_content-Result v p b d ]
      (check_document-IsEarly p d)
