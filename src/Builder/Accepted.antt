-- ===== src/Builder/Accepted.antt =====
-- indexbuilder.go: what CheckText accepts, Add indexes as it is.
use mathlib.Core.Path.{subst}
use zoekt_archived.Prelude.{
  ◌≡◌, refl, ap, sym, ◌∙◌, inl, inr, Bool, true, false, not, ◌&&◌, [], ◌∷◌, ◌++◌, none, some, Bytes,
  length, ltb, leb, ◌==◌, if◌then◌else◌, Bool-cases, arith,
}
use zoekt_archived.Bits.Deltas.{Varint}
use zoekt_archived.Bits.Ngrams.{split_ngrams}
use zoekt_archived.Provider.Fill.{index_byte, shift}
use zoekt_archived.Builder.Document.{
  Document, Platform, mark_binary, mark_skipped, is_blank, not_indexed_marker, binary,
  binary_content,
}
use zoekt_archived.Builder.Add.{IndexBuilder, added, add, prepare_document}
use zoekt_archived.Builder.AddLaws.{Result, Appended, HasLanguage}
use zoekt_archived.Builder.AddOutcome.{add_lem}
use zoekt_archived.Builder.CheckText.{check_text, max_trigram_count}
use zoekt_archived.Builder.CheckLaws.{
  is_none, has_zero, insert_all, ngrams_of, check_text_lem, check_text-short,
}

index_byte-has_zero : (text : Bytes) → has_zero text ≡ false → index_byte 0 text ≡ none
unfolding has_zero index_byte
index_byte-has_zero [] free = refl
index_byte-has_zero (c ∷ cs) free =
    let later = index_byte-has_zero cs (ground (arith, free)) in
    let first : (c == 0) ≡ false = ground (arith, free) in
    ap (λ b. if b then some 0 else shift (index_byte 0 cs)) first ∙ ap shift later

no_zero : (has few good : Bool) → good ≡ (not has && few) → good ≡ true → has ≡ false
no_zero true few good all holds = absurd (ground (arith, all, holds))
no_zero false few good all holds = refl

accepted-has_zero : (text : Bytes) → is_none (check_text text) ≡ true → has_zero text ≡ false
unfolding has_zero
accepted-has_zero [] good = refl
accepted-has_zero (c ∷ cs) good =
    elim (Bool-cases (ltb (length (c ∷ cs)) 3)) as (λ _. has_zero (c ∷ cs) ≡ false) [
      | inl short ↦
          let bad : true ≡ false = sym good ∙ check_text-short c cs short in
          absurd (ground (arith, bad))
      | inr long ↦
          no_zero (has_zero (c ∷ cs))
            (leb (length (insert_all [] (ngrams_of (split_ngrams (c ∷ cs))))) max_trigram_count)
            (is_none (check_text (c ∷ cs))) (check_text_lem (c ∷ cs) (ground arith)) good
    ]

prepare_document-accepted :
    (p : Platform) (d : Document)
    → is_none (check_text d.content) ≡ true
    → d.skip_reason ≡ []
    → prepare_document p d ≡ record d { symbols = p.sort_sections d.symbols }
unfolding prepare_document mark_binary mark_skipped is_blank
prepare_document-accepted p d good no_reason =
    let text = index_byte-has_zero d.content (accepted-has_zero d.content good) in
    let marked : mark_binary p d ≡ d =
      ap
        (λ o. elim o as (λ _. Document) [
          | none ↦ d
          | some i ↦ record d { skip_reason = binary_content ++ p.decimal i; language = binary }
        ])
        text in
    let skipped : mark_skipped d ≡ d =
      ap
        (λ b.
          if b then d else record d { content = not_indexed_marker ++ d.skip_reason; symbols = [] })
        (ap is_blank no_reason) in
    ap {A = Document} (λ e. record e { symbols = p.sort_sections e.symbols })
      (ap mark_skipped marked ∙ skipped)

-- If CheckText accepts the content of a document that has no reason to be skipped, and Add succeeds, then the
-- content and the name of the document are appended to the builder's as they are, its sections as sorted, the
-- checksum of its content, the mask of its branches, the number of its subrepository, and the code that the map
-- has for its own language.
pub add-accepted :
    (v : Varint) (p : Platform) (b : IndexBuilder) (d : Document)
    → is_none (check_text d.content) ≡ true
    → d.skip_reason ≡ []
    → (add v p b d).1 ≡ added
    → Appended v p b (add v p b d).0 (record d { symbols = p.sort_sections d.symbols })
      × HasLanguage b (add v p b d).0 d
unfolding Result HasLanguage
add-accepted v p b d good no_reason succeeds =
    let same = prepare_document-accepted p d good no_reason in
    let all =
      subst (λ o. Result v p b (prepare_document p d) o (add v p b d).0) succeeds
        (add_lem v p b d) in
    subst (λ e. Appended v p b (add v p b d).0 e × HasLanguage b (add v p b d).0 e) same all
