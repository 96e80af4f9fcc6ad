-- ===== src/Builder/Setup.antt =====
-- indexbuilder.go: NewIndexBuilder and setRepository.
use zoekt_archived.Prelude.{
  ℕ, ◌+◌, ◌%◌, ◌^◌, ◌≤◌, ◌<◌, ◌≡◌, refl, ap, ◌∙◌, Bool, true, false, not, ◌&&◌, ◌||◌, List, [], ◌∷◌,
  Option, none, some, Bytes, length, ltb, if◌then◌else◌, if-intro, arith,
}
use zoekt_archived.Query.Parse.Token.{bytes_eq}
use zoekt_archived.Bits.Deltas.{Varint}
use zoekt_archived.Builder.Document.{Platform}
use zoekt_archived.Builder.Postings.{new_postings_builder}
use zoekt_archived.Builder.OffsetTables.{new_postings_builder-IsIndexed}
use zoekt_archived.Builder.Add.{IndexBuilder, Added, add, look_up}
use zoekt_archived.Builder.AddTables.{IsBuilt}

-- Repository: the templates, the names of Branches and the keys of SubRepoMap.
pub record Repository : Type 0 where
  pub file_url_template : Bytes
  pub line_fragment_template : Bytes
  pub commit_url_template : Bytes
  pub branches : List Bytes
  pub sub_repo_paths : List Bytes

-- The error returns, and the builder.
pub data Setup : Type 0 where
  after_files : Setup
  bad_template : Setup
  too_many_branches : Setup
  ready : IndexBuilder → Setup

unfoldable pub is_path : Bytes → List Bytes → Bool
unfolding bytes_eq
is_path p [] = false
is_path p (q ∷ paths) = bytes_eq q p || is_path p paths

-- b.repo.SubRepoMap[""] = &repoCopy
unfoldable pub with_root : List Bytes → List Bytes
unfolding is_path
with_root paths = if is_path [] paths then paths else [] ∷ paths

unfoldable pub numbered : ℕ → List Bytes → List (Bytes × ℕ)
numbered i [] = []
numbered i (p ∷ paths) = (p, i % 2 ^ 32) ∷ numbered (i + 1) paths

-- `parses` is the success of text/template's Parse, `sort_strings` is sort.Strings.
module _ (parses : Bytes → Bool) (sort_strings : List Bytes → List Bytes) where
  unfoldable pub verify : Repository → Bool
  verify d =
      parses d.file_url_template
      && (parses d.line_fragment_template && parses d.commit_url_template)

  -- The map is nil before this, and holds the root afterwards.
  unfoldable pub populate_sub_repo_indices : List Bytes → IndexBuilder → IndexBuilder
  unfolding numbered
  populate_sub_repo_indices paths b = elim b.sub_repo_indices [
    | [] ↦ record b { sub_repo_indices = numbered 0 (sort_strings paths) }
    | _ ∷ _ ↦ b
  ]

  -- (The loop over the subrepositories computes branchEqual and does not use it.)
  unfoldable pub set_repository : IndexBuilder → Repository → Setup
  unfolding verify populate_sub_repo_indices with_root
  set_repository b desc =
      if ltb 0 (length b.content_strings)
      then after_files
      else if not (verify desc)
      then bad_template
      else if ltb 64 (length desc.branches)
      then too_many_branches
      else ready (
          populate_sub_repo_indices (with_root desc.sub_repo_paths)
            (record b { branches = desc.branches }))

  -- Before setRepository.
  unfoldable pub blank_builder : IndexBuilder
  blank_builder = record {
    content_strings = [];
    name_strings = [];
    doc_sections = [];
    rune_doc_sections = [];
    checksums = [];
    branch_masks = [];
    sub_repos = [];
    content_postings = new_postings_builder;
    name_postings = new_postings_builder;
    branches = [];
    sub_repo_indices = [];
    language_map = [];
    languages = [];
  }

  unfoldable pub new_index_builder : Repository → Setup
  unfolding set_repository blank_builder
  new_index_builder r = set_repository blank_builder r

-- AddFile
module _ (v : Varint) (p : Platform) where
  unfoldable pub add_file : IndexBuilder → Bytes → Bytes → IndexBuilder × Added
  unfolding add
  add_file b name content = add v p b (record {
    name = name;
    content = content;
    branches = [];
    sub_repository_path = [];
    language = [];
    skip_reason = [];
    symbols = [];
  })

-- ContentSize
unfoldable pub content_size : IndexBuilder → ℕ
content_size b = (b.content_postings.end_byte + b.name_postings.end_byte) % 2 ^ 32

is_found : Option ℕ → Bool
is_found none = false
is_found (some n) = true

-- n + i, on uint32.
on_from : ℕ → Option ℕ → Option ℕ
on_from i none = none
on_from i (some n) = some ((n + i) % 2 ^ 32)

next_place : Option ℕ → Option ℕ
next_place none = none
next_place (some n) = some (n + 1)

-- The place in a list where a path stands first.
first_place : Bytes → List Bytes → Option ℕ
unfolding bytes_eq next_place
first_place p [] = none
first_place p (q ∷ paths) = if bytes_eq q p then some 0 else next_place (first_place p paths)

on_from-next_place : (i : ℕ) (o : Option ℕ) → on_from (i + 1) o ≡ on_from i (next_place o)
unfolding on_from next_place
on_from-next_place i none = refl
on_from-next_place i (some n) =
    let same : n + (i + 1) ≡ n + 1 + i = omega arith in ap (λ m. some (m % 2 ^ 32)) same

look_up-numbered :
    (i : ℕ) (p : Bytes) (paths : List Bytes)
    → look_up p (numbered i paths) ≡ on_from i (first_place p paths)
unfolding look_up numbered first_place on_from
look_up-numbered i p [] = refl
look_up-numbered i p (q ∷ paths) =
    let later = look_up-numbered (i + 1) p paths ∙ on_from-next_place i (first_place p paths) in
    let here : i ≡ 0 + i = omega arith in
    elim (bytes_eq q p)
      as (λ t.
        (if t then some (i % 2 ^ 32) else look_up p (numbered (i + 1) paths))
        ≡ on_from i (if t then some 0 else next_place (first_place p paths))) [
          | true ↦ ap (λ n. some (n % 2 ^ 32)) here
          | false ↦ later
        ]

is_found-next_place : (o : Option ℕ) → is_found (next_place o) ≡ is_found o
unfolding is_found next_place
is_found-next_place none = refl
is_found-next_place (some n) = refl

is_found-first_place :
    (p : Bytes) (paths : List Bytes) → is_found (first_place p paths) ≡ is_path p paths
unfolding first_place is_path is_found
is_found-first_place p [] = refl
is_found-first_place p (q ∷ paths) =
    elim (bytes_eq q p)
      as (λ t.
        is_found (if t then some 0 else next_place (first_place p paths))
        ≡ (t || is_path p paths)) [
          | true ↦ refl
          | false ↦ is_found-next_place (first_place p paths) ∙ is_found-first_place p paths
        ]

-- By the outcome: what a new builder is.
unfoldable pub IsNew : (Bytes → Bool) → (List Bytes → List Bytes) → Repository → Setup → Type 0
unfolding is_found with_root is_path on_from first_place
IsNew parses sort_strings r after_files = ⊥
IsNew parses sort_strings r bad_template =
    (parses r.file_url_template
      && (parses r.line_fragment_template && parses r.commit_url_template))
    ≡ false
IsNew parses sort_strings r too_many_branches = 64 < length r.branches
IsNew parses sort_strings r (ready b) =
    ((parses r.file_url_template
        && (parses r.line_fragment_template && parses r.commit_url_template))
      ≡ true)
    × (IsBuilt b
        × ((b.branches ≡ r.branches)
            × ((length b.branches ≤ 64)
                × ((p : Bytes)
                    → (look_up p b.sub_repo_indices
                        ≡ on_from 0 (first_place p (sort_strings (with_root r.sub_repo_paths))))
                      × (is_found (first_place p (sort_strings (with_root r.sub_repo_paths)))
                          ≡ is_path p (with_root r.sub_repo_paths))))))

-- If sort.Strings keeps the elements of a list, then NewIndexBuilder fails only where a template does not parse or
-- there are more than 64 branches; a builder that it returns has right tables, the branches of the repository,
-- at most 64, and for each of its subrepositories and the root, and no other path, the place where the path
-- stands first in their sorted list, on uint32, and all templates parse.
pub new_index_builder-IsNew :
    (parses : Bytes → Bool) (sort_strings : List Bytes → List Bytes) (r : Repository)
    → ((p : Bytes) (paths : List Bytes) → is_path p (sort_strings paths) ≡ is_path p paths)
    → IsNew parses sort_strings r (new_index_builder parses sort_strings r)
unfolding new_index_builder set_repository populate_sub_repo_indices verify IsNew blank_builder
new_index_builder-IsNew parses sort_strings r keeps =
    let good =
      parses r.file_url_template
      && (parses r.line_fragment_template && parses r.commit_url_template) in
    let built : IndexBuilder = record (blank_builder parses sort_strings) {
      branches = r.branches;
      sub_repo_indices = numbered 0 (sort_strings (with_root r.sub_repo_paths));
    } in
    if-intro (IsNew parses sort_strings r) (not good) bad_template
      (if ltb 64 (length r.branches) then too_many_branches else ready built)
      (λ bad. ground (arith, bad))
      (λ parsed.
        if-intro (IsNew parses sort_strings r) (ltb 64 (length r.branches)) too_many_branches
          (ready built) (λ many. ground (arith, many))
          (λ few. (
            ground (arith, parsed),
            (
              record {
                content_tables = new_postings_builder-IsIndexed;
                name_tables = new_postings_builder-IsIndexed;
                name_count = refl;
                section_count = refl;
                mask_count = refl;
                sub_repo_count = refl;
                language_count = refl;
              },
              (
                refl,
                (
                  ground (arith, few),
                  λ p. (
                    look_up-numbered 0 p (sort_strings (with_root r.sub_repo_paths)),
                    is_found-first_place p (sort_strings (with_root r.sub_repo_paths))
                        ∙ keeps p (with_root r.sub_repo_paths),
                  ),
                ),
              ),
            ),
          )))
