-- ===== src/Builder/AddTables.antt =====
-- indexbuilder.go: Add keeps the offset tables of contents and names right, and the lists in step.
use mathlib.Core.Path.{subst}
use zoekt_archived.Prelude.{
  sym, length-append, arith, ◌+◌, ◌<◌, ◌≡◌, ap, ◌∙◌, List, [], ◌∷◌, ◌++◌, arith, Bytes, length, ◌^◌,
}
use zoekt_archived.Bits.Deltas.{Varint, DocumentSection}
use zoekt_archived.Builder.Postings.{PostingsBuilder, new_searchable_string}
use zoekt_archived.Builder.Document.{Document, Platform}
use zoekt_archived.Builder.Add.{IndexBuilder, added, add, prepare_document}
use zoekt_archived.Builder.AddLaws.{Result, Appended, HasLanguage}
use zoekt_archived.Index.Writing.{flat}
use zoekt_archived.Builder.OffsetTables.{IsIndexed}
use zoekt_archived.Builder.Indexing.{new_searchable_string-IsIndexed}
use zoekt_archived.Builder.Apart.{StartsWhole, starts-IsApart}
use zoekt_archived.Builder.AddOutcome.{add_lem}
use zoekt_archived.Builder.AddIndexes.{GoesTo, add-Indexes}

-- A builder whose tables are right, with one entry of every list for each document.
pub record IsBuilt (b : IndexBuilder) : Type 0 where
  pub content_tables : IsIndexed b.content_postings b.content_strings
  pub name_tables : IsIndexed b.name_postings b.name_strings
  pub name_count : length b.name_strings ≡ length b.content_strings
  pub section_count : length b.doc_sections ≡ length b.content_strings
  pub mask_count : length b.branch_masks ≡ length b.content_strings
  pub sub_repo_count : length b.sub_repos ≡ length b.content_strings
  pub language_count : length b.languages ≡ length b.content_strings

GoesTo-IsIndexed :
    (v : Varint) (s s' : PostingsBuilder) (docs : List Bytes) (text : Bytes)
    (secs : List DocumentSection)
    → GoesTo s' (new_searchable_string v s text secs)
    → length (flat docs) + length text < 2 ^ 32
    → StartsWhole text
    → IsIndexed s docs
    → IsIndexed s' (docs ++ text ∷ [])
unfolding GoesTo
GoesTo-IsIndexed v s s' docs text secs (rune_secs, (good, same)) short start old =
    subst (λ b. IsIndexed b (docs ++ text ∷ [])) (sym same)
      (new_searchable_string-IsIndexed v s docs text secs rune_secs short
        (starts-IsApart s.rune_count (flat docs) text start old.proper) old good)

one_more : {A : Type 0} (xs ys : List A) (y : A) → xs ≡ ys ++ y ∷ [] → length xs ≡ length ys + 1
one_more xs ys y eq = ap length eq ∙ length-append ys (y ∷ [])

-- If the tables of a builder are right and its lists are in step, contents and names stay below 4 GiB with
-- the document as Add prepares it, its content and its name do not start inside a rune, and Add succeeds,
-- then the tables are right and the lists in step for the documents with it.
pub add-IsBuilt :
    (v : Varint) (p : Platform) (b : IndexBuilder) (doc : Document)
    → IsBuilt b
    → length (flat b.content_strings) + length (prepare_document p doc).content < 2 ^ 32
    → length (flat b.name_strings) + length (prepare_document p doc).name < 2 ^ 32
    → StartsWhole (prepare_document p doc).content
    → StartsWhole (prepare_document p doc).name
    → (add v p b doc).1 ≡ added
    → IsBuilt (add v p b doc).0
unfolding Result HasLanguage
add-IsBuilt v p b doc built fits name_fits start name_start good =
    let d = prepare_document p doc in
    let b' = (add v p b doc).0 in
    let (all, (code, (_, languages))) : Appended v p b b' d × HasLanguage b b' d =
      subst (λ o. Result v p b d o b') good (add_lem v p b doc) in
    let indexes = add-Indexes v p b doc good in
    let old_names = built.name_count in
    let old_sections = built.section_count in
    let old_masks = built.mask_count in
    let old_sub_repos = built.sub_repo_count in
    let old_languages = built.language_count in
    let contents = one_more _ _ _ all.contents in
    record {
      content_tables = subst (IsIndexed b'.content_postings) (sym all.contents) (
          GoesTo-IsIndexed v b.content_postings b'.content_postings b.content_strings d.content
            d.symbols indexes.contents fits start built.content_tables);
      name_tables = subst (IsIndexed b'.name_postings) (sym all.names) (
          GoesTo-IsIndexed v b.name_postings b'.name_postings b.name_strings d.name [] indexes.names
            name_fits name_start built.name_tables);
      name_count = omega (arith, contents, one_more _ _ _ all.names, old_names);
      section_count = omega (arith, contents, one_more _ _ _ all.sections, old_sections);
      mask_count = omega (arith, contents, one_more _ _ _ all.mask.1.1, old_masks);
      sub_repo_count = omega (arith, contents, one_more _ _ _ all.sub_repo.1.1, old_sub_repos);
      language_count = omega (arith, contents, one_more _ _ _ languages, old_languages);
    }
