-- ===== src/Builder/AddLaws.antt =====
-- indexbuilder.go: what Add appends to the builder, on every outcome.
use zoekt_archived.Prelude.{
  ℕ, ◌%◌, ◌≡◌, refl, inl, inr, true, List, [], ◌∷◌, ◌++◌, none, some, Bool-cases, arith, Bytes,
  length, if◌then◌else◌, if-intro, leb,
}
use zoekt_archived.Query.Parse.Token.{bytes_eq}
use zoekt_archived.Bits.Deltas.{Varint, DocumentSection}
use zoekt_archived.Builder.Postings.{PostingsBuilder, done, new_searchable_string}
use zoekt_archived.Builder.Document.{
  Document, sections_overlap, past_end, not_below_subrepo, no_rune_at_section, unknown_subrepo,
  no_branch, too_many_languages, Platform,
}
use zoekt_archived.Builder.Add.{
  IndexBuilder, Added, added, refused, crashed, look_up, mask_loop, append_document, add_language,
  add_entry,
}

-- The lists that Add appends to, and the codes of the languages.
pub record Kept (b b' : IndexBuilder) : Type 0 where
  pub contents : b'.content_strings ≡ b.content_strings
  pub names : b'.name_strings ≡ b.name_strings
  pub sections : b'.doc_sections ≡ b.doc_sections
  pub rune_sections : b'.rune_doc_sections ≡ b.rune_doc_sections
  pub checksums : b'.checksums ≡ b.checksums
  pub masks : b'.branch_masks ≡ b.branch_masks
  pub sub_repos : b'.sub_repos ≡ b.sub_repos
  pub languages : b'.languages ≡ b.languages
  pub language_map : b'.language_map ≡ b.language_map

-- The document is appended to all of them but languages; its sections in runes are those of newSearchableString.
pub record Appended (v : Varint) (p : Platform) (b b' : IndexBuilder) (d : Document) : Type 0 where
  pub contents : b'.content_strings ≡ b.content_strings ++ d.content ∷ []
  pub names : b'.name_strings ≡ b.name_strings ++ d.name ∷ []
  pub sections : b'.doc_sections ≡ b.doc_sections ++ d.symbols ∷ []
  pub rune_sections :
      (secs : List DocumentSection) × (((new_searchable_string v b.content_postings d.content
            d.symbols).rune_sections
          ≡ done secs)
        × (b'.rune_doc_sections ≡ b.rune_doc_sections ++ secs))
  pub checksums : b'.checksums ≡ b.checksums ++ p.checksum d.content
  pub mask :
      (m : ℕ) × ((mask_loop b.branches d.branches 0 ≡ some m)
        × (b'.branch_masks ≡ b.branch_masks ++ m ∷ []))
  pub sub_repo :
      (n : ℕ) × ((look_up d.sub_repository_path b.sub_repo_indices ≡ some n)
        × (b'.sub_repos ≡ b.sub_repos ++ n ∷ []))

-- The code of the language is appended, and is the one that the map has for it.
unfoldable pub HasLanguage : IndexBuilder → IndexBuilder → Document → Type 0
HasLanguage b b' d =
    (code : ℕ) × ((look_up d.language b'.language_map ≡ some code)
      × (b'.languages ≡ b.languages ++ code ∷ []))

-- By the outcome, what the lists are afterwards.
unfoldable pub Result : Varint → Platform → IndexBuilder → Document → Added → IndexBuilder → Type 0
unfolding HasLanguage
Result v p b d added b' = Appended v p b b' d × HasLanguage b b' d
Result v p b d (refused too_many_languages) b' =
    Appended v p b b' d
    × ((b'.languages ≡ b.languages) × (look_up d.language b.language_map ≡ none))
Result v p b d (refused no_rune_at_section) b' = Kept b b'
Result v p b d (refused unknown_subrepo) b' = Kept b b'
Result v p b d (refused no_branch) b' = Kept b b'
Result v p b d (refused sections_overlap) b' = b' ≡ b
Result v p b d (refused past_end) b' = b' ≡ b
Result v p b d (refused not_below_subrepo) b' = b' ≡ b
Result v p b d crashed b' = Kept b b'

bytes_eq_refl : (s : Bytes) → bytes_eq s s ≡ true
unfolding bytes_eq
bytes_eq_refl [] = refl
bytes_eq_refl (c ∷ s) = ground (arith, bytes_eq_refl s)

look_up-append :
    (k : Bytes) (n : ℕ) (m : List (Bytes × ℕ))
    → look_up k m ≡ none
    → look_up k (m ++ (k, n) ∷ []) ≡ some n
unfolding look_up
look_up-append k n [] absent = ground (arith, bytes_eq_refl k)
look_up-append k n ((j, i) ∷ m) absent = elim (Bool-cases (bytes_eq j k)) [
  | inl same ↦ ground (arith, same)
  | inr other ↦ ground (arith, other, look_up-append k n m)
]

-- A builder as Add leaves it before the document is appended.
abbrev pub moved : IndexBuilder → PostingsBuilder → PostingsBuilder → IndexBuilder
moved b contents names = record b { content_postings = contents; name_postings = names }

pub kept : {b : IndexBuilder} {contents names : PostingsBuilder} → Kept b (moved b contents names)
kept = record {
  contents = refl;
  names = refl;
  sections = refl;
  rune_sections = refl;
  checksums = refl;
  masks = refl;
  sub_repos = refl;
  languages = refl;
  language_map = refl;
}

unfoldable pub Both : Varint → Platform → IndexBuilder → Document → IndexBuilder × Added → Type 0
unfolding Result
Both v p b d r = Result v p b d r.1 r.0

module _ (v : Varint) (p : Platform) (b : IndexBuilder) (contents names : PostingsBuilder)
    (d : Document) where
  document-Appended :
      (secs : List DocumentSection) (sub_repo mask : ℕ)
      → (new_searchable_string v b.content_postings d.content d.symbols).rune_sections ≡ done secs
      → look_up d.sub_repository_path b.sub_repo_indices ≡ some sub_repo
      → mask_loop b.branches d.branches 0 ≡ some mask
      → Appended v p b (append_document p (moved b contents names) d secs sub_repo mask) d
  unfolding append_document
  document-Appended secs sub_repo mask here found masked = record {
    contents = refl;
    names = refl;
    sections = refl;
    rune_sections = (secs, (here, refl));
    checksums = refl;
    mask = (mask, (masked, refl));
    sub_repo = (sub_repo, (found, refl));
  }

  same_documents :
      {b' : IndexBuilder} {languages : List ℕ} {m : List (Bytes × ℕ)}
      → Appended v p b b' d
      → Appended v p b (record b' { language_map = m; languages = languages }) d
  same_documents all = record {
    contents = all.contents;
    names = all.names;
    sections = all.sections;
    rune_sections = all.rune_sections;
    checksums = all.checksums;
    mask = all.mask;
    sub_repo = all.sub_repo;
  }

  add_language-Result :
      (secs : List DocumentSection) (sub_repo mask : ℕ)
      → (new_searchable_string v b.content_postings d.content d.symbols).rune_sections ≡ done secs
      → look_up d.sub_repository_path b.sub_repo_indices ≡ some sub_repo
      → mask_loop b.branches d.branches 0 ≡ some mask
      → Both v p b d (
          add_language (append_document p (moved b contents names) d secs sub_repo mask) d.language)
  unfolding add_language append_document Result Both HasLanguage look_up
  add_language-Result secs sub_repo mask here found masked =
      let b' = append_document p (moved b contents names) d secs sub_repo mask in
      let all = document-Appended secs sub_repo mask here found masked in
      let code = length b.language_map % 256 in
      let new : IndexBuilder = record b' {
        language_map = b.language_map ++ (d.language, code) ∷ [];
        languages = b.languages ++ code ∷ [];
      } in
      let known : ℕ → IndexBuilder = λ c. record b' { languages = b.languages ++ c ∷ [] } in
      elim (look_up d.language b.language_map)
          as (λ o.
            look_up d.language b.language_map ≡ o
            → Both v p b d (elim o as (λ _. IndexBuilder × Added) [
              | some c ↦ (known c, added)
              | none ↦
                  if leb 255 (length b.language_map)
                  then (b', refused too_many_languages)
                  else (new, added)
            ])) [
              | some c ↦ λ eq. (same_documents all, (c, (eq, refl)))
              | none ↦ λ eq.
                  if-intro (Both v p b d) (leb 255 (length b.language_map))
                    (b', refused too_many_languages) (new, added) (λ _. (all, (refl, eq)))
                    (λ _. (
                      same_documents all,
                      (code, (look_up-append d.language code b.language_map eq, refl)),
                    ))
            ]
        refl

  pub add_entry-Result :
      (secs : List DocumentSection)
      → (new_searchable_string v b.content_postings d.content d.symbols).rune_sections ≡ done secs
      → Both v p b d (add_entry p (moved b contents names) d secs)
  unfolding add_entry Result Both
  add_entry-Result secs here =
      elim (look_up d.sub_repository_path b.sub_repo_indices)
          as (λ o.
            look_up d.sub_repository_path b.sub_repo_indices ≡ o
            → Both v p b d (elim o as (λ _. IndexBuilder × Added) [
              | none ↦ (moved b contents names, refused unknown_subrepo)
              | some n ↦ elim (mask_loop b.branches d.branches 0) [
                | none ↦ (moved b contents names, refused no_branch)
                | some m ↦
                    add_language (append_document p (moved b contents names) d secs n m) d.language
              ]
            ])) [
              | none ↦ λ _. kept
              | some n ↦ λ found.
                  elim (mask_loop b.branches d.branches 0)
                      as (λ o.
                        mask_loop b.branches d.branches 0 ≡ o
                        → Both v p b d (elim o as (λ _. IndexBuilder × Added) [
                          | none ↦ (moved b contents names, refused no_branch)
                          | some m ↦
                              add_language (append_document p (moved b contents names) d secs n m)
                                d.language
                        ])) [
                          | none ↦ λ _. kept
                          | some m ↦ λ masked. add_language-Result secs n m here found masked
                        ]
                    refl
            ]
        refl
