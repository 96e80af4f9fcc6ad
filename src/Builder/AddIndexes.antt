-- ===== src/Builder/AddIndexes.antt =====
-- indexbuilder.go: Add indexes the content and the name of a document.
use zoekt_archived.Prelude.{
  arith, ℕ, ◌%◌, ◌≡◌, refl, List, [], ◌∷◌, ◌++◌, Option, none, some, arith, length, if◌then◌else◌,
  if-intro, leb,
}
use zoekt_archived.Bits.Deltas.{Varint, DocumentSection}
use zoekt_archived.Builder.Postings.{
  PostingsBuilder, Indexed, Outcome, done, failed, panicked, new_searchable_string,
}
use zoekt_archived.Builder.Document.{
  Document, Reason, no_rune_at_section, unknown_subrepo, no_branch, too_many_languages, Platform,
}
use zoekt_archived.Builder.Add.{
  IndexBuilder, Added, added, refused, crashed, look_up, mask_loop, append_document, add_language,
  add_entry, add_name, add_content, add, prepare_document, check_document,
}

-- newSearchableString succeeded, and left the builder s.
unfoldable pub GoesTo : PostingsBuilder → Indexed → Type 0
GoesTo s r = (secs : List DocumentSection) × ((r.rune_sections ≡ done secs) × (s ≡ r.builder))

-- What newSearchableString gave for the content and for the name.
pub record Indexes (v : Varint) (b b' : IndexBuilder) (d : Document) : Type 0 where
  pub contents :
      GoesTo b'.content_postings (new_searchable_string v b.content_postings d.content d.symbols)
  pub names : GoesTo b'.name_postings (new_searchable_string v b.name_postings d.name [])

module _ (p : Platform) (b : IndexBuilder) (d : Document) where
  Stays : IndexBuilder × Added → Type 0
  Stays r = (r.0.content_postings ≡ b.content_postings) × (r.0.name_postings ≡ b.name_postings)

  add_language-Stays :
      (secs : List DocumentSection) (sub_repo mask : ℕ)
      → Stays (add_language (append_document p b d secs sub_repo mask) d.language)
  unfolding add_language append_document Stays
  add_language-Stays secs sub_repo mask =
      let b' = append_document p b d secs sub_repo mask in
      let code = length b.language_map % 256 in
      let new : IndexBuilder = record b' {
        language_map = b.language_map ++ (d.language, code) ∷ [];
        languages = b.languages ++ code ∷ [];
      } in
      elim (look_up d.language b.language_map)
        as (λ o. Stays (elim o as (λ _. IndexBuilder × Added) [
          | some c ↦ (record b' { languages = b.languages ++ c ∷ [] }, added)
          | none ↦
              if leb 255 (length b.language_map)
              then (b', refused too_many_languages)
              else (new, added)
        ])) [
          | some c ↦ (refl, refl)
          | none ↦
              if-intro Stays (leb 255 (length b.language_map)) (b', refused too_many_languages)
                (new, added) (λ _. (refl, refl)) (λ _. (refl, refl))
        ]

  add_entry-Stays : (secs : List DocumentSection) → Stays (add_entry p b d secs)
  unfolding add_entry Stays
  add_entry-Stays secs =
      elim (look_up d.sub_repository_path b.sub_repo_indices)
        as (λ o. Stays (elim o as (λ _. IndexBuilder × Added) [
          | none ↦ (b, refused unknown_subrepo)
          | some n ↦ elim (mask_loop b.branches d.branches 0) [
            | none ↦ (b, refused no_branch)
            | some m ↦ add_language (append_document p b d secs n m) d.language
          ]
        ])) [
          | none ↦ (refl, refl)
          | some n ↦
              elim (mask_loop b.branches d.branches 0)
                as (λ o. Stays (elim o as (λ _. IndexBuilder × Added) [
                  | none ↦ (b, refused no_branch)
                  | some m ↦ add_language (append_document p b d secs n m) d.language
                ])) [ none ↦ (refl, refl) | some m ↦ add_language-Stays secs n m ]
        ]

module _ (v : Varint) (p : Platform) (b : IndexBuilder) (d : Document) where
  add_name-GoesTo :
      (secs : List DocumentSection)
      → (add_name v p b d secs).1 ≡ added
      → ((add_name v p b d secs).0.content_postings ≡ b.content_postings)
        × GoesTo
            (add_name v p b d secs).0.name_postings
            (new_searchable_string v b.name_postings d.name [])
  unfolding add_name GoesTo Stays
  add_name-GoesTo secs good =
      let r = new_searchable_string v b.name_postings d.name [] in
      let b' : IndexBuilder = record b { name_postings = r.builder } in
      let next : Outcome (List DocumentSection) → IndexBuilder × Added = λ o. elim o [
        | done rune_secs ↦ add_entry p b' d secs
        | failed ↦ (b', refused no_rune_at_section)
        | panicked ↦ (b', crashed)
      ] in
      let stays = add_entry-Stays p b' d secs in
      elim r.rune_sections
          as (λ o.
            r.rune_sections ≡ o
            → (next o).1 ≡ added
            → ((next o).0.content_postings ≡ b.content_postings)
              × GoesTo (next o).0.name_postings r) [
                | done rune_secs ↦ λ eq _. (stays.0, (rune_secs, (eq, stays.1)))
                | failed ↦ λ eq bad. absurd (ground arith)
                | panicked ↦ λ eq bad. absurd (ground arith)
              ]
        refl good

module _ (v : Varint) (p : Platform) (b : IndexBuilder) (d : Document) where
  add_content-Indexes : (add_content v p b d).1 ≡ added → Indexes v b (add_content v p b d).0 d
  unfolding add_content GoesTo
  add_content-Indexes good =
      let r = new_searchable_string v b.content_postings d.content d.symbols in
      let b' : IndexBuilder = record b { content_postings = r.builder } in
      let next : Outcome (List DocumentSection) → IndexBuilder × Added = λ o. elim o [
        | done rune_secs ↦ add_name v p b' d rune_secs
        | failed ↦ (b', refused no_rune_at_section)
        | panicked ↦ (b', crashed)
      ] in
      elim r.rune_sections
          as (λ o. r.rune_sections ≡ o → (next o).1 ≡ added → Indexes v b (next o).0 d) [
            | done rune_secs ↦ λ eq added'.
                let (same, name) = add_name-GoesTo v p b' d rune_secs added' in
                record { contents = (rune_secs, (eq, same)); names = name }
            | failed ↦ λ eq bad. absurd (ground arith)
            | panicked ↦ λ eq bad. absurd (ground arith)
          ]
        refl good

pub add-Indexes :
    (v : Varint) (p : Platform) (b : IndexBuilder) (doc : Document)
    → (add v p b doc).1 ≡ added
    → Indexes v b (add v p b doc).0 (prepare_document p doc)
unfolding add
add-Indexes v p b doc =
    let d = prepare_document p doc in
    let next : Option Reason → IndexBuilder × Added =
      λ o. elim o [ some reason ↦ (b, refused reason) | none ↦ add_content v p b d ] in
    elim (check_document p d) as (λ o. (next o).1 ≡ added → Indexes v b (next o).0 d) [
      | some reason ↦ λ bad. absurd (ground arith)
      | none ↦ add_content-Indexes v p b d
    ]
