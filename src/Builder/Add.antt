-- ===== src/Builder/Add.antt =====
-- indexbuilder.go: IndexBuilder, Add and branchMask.
use Prim.Native.Nat.{bit_or}
use zoekt_archived.Prelude.{
  ℕ, ◌+◌, ◌%◌, ◌^◌, Bool, true, false, List, [], ◌∷◌, ◌++◌, Option, none, some, Bytes, length, leb,
  ◌==◌, if◌then◌else◌,
}
use zoekt_archived.Query.Parse.Token.{bytes_eq}
use zoekt_archived.Bits.Deltas.{Varint, DocumentSection}
use zoekt_archived.Builder.Postings.{PostingsBuilder, done, failed, panicked, new_searchable_string}
use zoekt_archived.Builder.Document.{
  Document, Reason, not_below_subrepo, no_rune_at_section, unknown_subrepo, no_branch,
  too_many_languages, Platform, is_blank, mark_binary, mark_skipped, check_sections,
}

-- Go maps from strings, as association lists.
unfoldable pub look_up : Bytes → List (Bytes × ℕ) → Option ℕ
unfolding bytes_eq
look_up k [] = none
look_up k ((j, n) ∷ m) = let rest = look_up k m in if bytes_eq j k then some n else rest

-- IndexBuilder: a searchableString is its data, and of repo the names of Branches.
pub record IndexBuilder : Type 0 where
  pub content_strings : List Bytes
  pub name_strings : List Bytes
  pub doc_sections : List (List DocumentSection)
  pub rune_doc_sections : List DocumentSection
  pub checksums : Bytes
  pub branch_masks : List ℕ
  pub sub_repos : List ℕ
  pub content_postings : PostingsBuilder
  pub name_postings : PostingsBuilder
  pub branches : List Bytes
  pub sub_repo_indices : List (Bytes × ℕ)
  pub language_map : List (Bytes × ℕ)
  pub languages : List ℕ

pub data Added : Type 0 where
  added : Added
  refused : Reason → Added
  crashed : Added

-- uint64(1) << uint(i) at the first branch of the name, from index i on.
unfoldable pub branch_mask : ℕ → List Bytes → Bytes → ℕ
unfolding bytes_eq
branch_mask i [] br = 0
branch_mask i (b ∷ branches) br =
    let rest = branch_mask (i + 1) branches br in if bytes_eq b br then 2 ^ i % 2 ^ 64 else rest

-- The loop over doc.Branches.
unfoldable pub mask_loop : List Bytes → List Bytes → ℕ → Option ℕ
unfolding branch_mask
mask_loop branches [] mask = some mask
mask_loop branches (br ∷ brs) mask =
    let m = branch_mask 0 branches br in
    let rest = mask_loop branches brs (bit_or mask m) in if m == 0 then none else rest

-- The last part of Add.
unfoldable pub add_language : IndexBuilder → Bytes → IndexBuilder × Added
unfolding look_up
add_language b language = elim (look_up language b.language_map) [
  | some code ↦ (record b { languages = b.languages ++ code ∷ [] }, added)
  | none ↦
      let code = length b.language_map % 256 in
      if leb 255 (length b.language_map) then (b, refused too_many_languages) else (
        record b {
          language_map = b.language_map ++ (language, code) ∷ [];
          languages = b.languages ++ code ∷ [];
        },
        added,
      )
]

module _ (p : Platform) where
  unfoldable pub append_document :
      IndexBuilder → Document → List DocumentSection → ℕ → ℕ → IndexBuilder
  append_document b d rune_secs sub_repo mask = record b {
    sub_repos = b.sub_repos ++ sub_repo ∷ [];
    content_strings = b.content_strings ++ d.content ∷ [];
    rune_doc_sections = b.rune_doc_sections ++ rune_secs;
    name_strings = b.name_strings ++ d.name ∷ [];
    doc_sections = b.doc_sections ++ d.symbols ∷ [];
    branch_masks = b.branch_masks ++ mask ∷ [];
    checksums = b.checksums ++ p.checksum d.content;
  }

  -- From the look-up of the subrepository on.
  unfoldable pub add_entry : IndexBuilder → Document → List DocumentSection → IndexBuilder × Added
  unfolding look_up mask_loop append_document add_language
  add_entry b d rune_secs = elim (look_up d.sub_repository_path b.sub_repo_indices) [
    | none ↦ (b, refused unknown_subrepo)
    | some sub_repo ↦ elim (mask_loop b.branches d.branches 0) [
      | none ↦ (b, refused no_branch)
      | some mask ↦ add_language (append_document b d rune_secs sub_repo mask) d.language
    ]
  ]

  -- err != nil || rel == doc.Name
  unfoldable pub is_outside : Document → Bool
  unfolding bytes_eq is_blank
  is_outside d =
      if is_blank d.sub_repository_path
      then false
      else elim (p.rel d.sub_repository_path d.name) as (λ _. Bool) [
        | none ↦ true
        | some rel ↦ bytes_eq rel d.name
      ]

  -- The document as it is indexed: marked, and with its sections sorted.
  unfoldable pub prepare_document : Document → Document
  unfolding mark_binary mark_skipped
  prepare_document doc =
      let d = mark_skipped (mark_binary p doc) in record d { symbols = p.sort_sections d.symbols }

  unfoldable pub check_document : Document → Option Reason
  unfolding check_sections is_outside
  check_document d = elim (check_sections d.symbols d.content) [
    | some reason ↦ some reason
    | none ↦ if is_outside d then some not_below_subrepo else none
  ]

module _ (v : Varint) (p : Platform) where
  -- newSearchableString on the name, and what follows.
  unfoldable pub add_name : IndexBuilder → Document → List DocumentSection → IndexBuilder × Added
  unfolding new_searchable_string add_entry
  add_name b d rune_secs =
      let r = new_searchable_string v b.name_postings d.name [] in
      let b' : IndexBuilder = record b { name_postings = r.builder } in
      elim r.rune_sections [
        | done secs ↦ add_entry p b' d rune_secs
        | failed ↦ (b', refused no_rune_at_section)
        | panicked ↦ (b', crashed)
      ]

  -- newSearchableString on the content, and what follows.
  unfoldable pub add_content : IndexBuilder → Document → IndexBuilder × Added
  unfolding new_searchable_string add_name
  add_content b d =
      let r = new_searchable_string v b.content_postings d.content d.symbols in
      let b' : IndexBuilder = record b { content_postings = r.builder } in
      elim r.rune_sections [
        | done rune_secs ↦ add_name b' d rune_secs
        | failed ↦ (b', refused no_rune_at_section)
        | panicked ↦ (b', crashed)
      ]

  unfoldable pub add : IndexBuilder → Document → IndexBuilder × Added
  unfolding prepare_document check_document add_content
  add b doc =
      let d = prepare_document p doc in
      elim (check_document p d) [ some reason ↦ (b, refused reason) | none ↦ add_content b d ]
