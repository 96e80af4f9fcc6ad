-- ===== src/Build/TagRuns.antt =====
-- build/ctags.go: the sections of tagsToSections follow one another inside the content.
use zoekt_archived.Prelude.{
  ℕ, ◌-◌, ◌%◌, ◌^◌, ◌<◌, ◌≡◌, refl, ap, ◌∙◌, inl, Bool, true, false, ◌&&◌, List, [], ◌∷◌, Option,
  none, some, Bytes, length, ltb, leb, ◌==◌, if◌then◌else◌, if-intro, arith, ◌⊎◌, inr,
}
use zoekt_archived.Bits.Deltas.{DocumentSection}
use zoekt_archived.Builder.Postings.{Outcome, done, failed, panicked}
use zoekt_archived.Builder.Document.{Reason, sections_overlap, past_end, check_sections}
use zoekt_archived.Build.Tags.{
  Entry, Tagging, line_ends, tag_line, tag_step, tag_loop, tags_to_sections,
}
use zoekt_archived.Build.TagSections.{AllNamed, IsTagged}
use zoekt_archived.Build.TagLines.{Goes, tag_line-Goes}

-- Every tag is on a line that the text has.
unfoldable pub all_inside : ℕ → List Entry → Bool
all_inside n [] = true
all_inside n (t ∷ tags) = leb t.line n && all_inside n tags

-- The symbols of tags.
unfoldable pub IsSymbol : List Entry → Bytes → Type 0
IsSymbol [] x = ⊥
IsSymbol (t ∷ tags) x = (x ≡ t.sym) ⊎ IsSymbol tags x

AllSyms : (Bytes → Type 0) → List Entry → Type 0
AllSyms Sym [] = Unit
AllSyms Sym (t ∷ tags) = Sym t.sym × AllSyms Sym tags

AllSyms-weaken :
    (S T : Bytes → Type 0) (tags : List Entry)
    → ((x : Bytes) → S x → T x)
    → AllSyms S tags
    → AllSyms T tags
unfolding AllSyms
AllSyms-weaken S T [] weaken all = tt
AllSyms-weaken S T (t ∷ tags) weaken (first, rest) =
    (weaken t.sym first, AllSyms-weaken S T tags weaken rest)

AllSyms-IsSymbol : (tags : List Entry) → AllSyms (IsSymbol tags) tags
unfolding AllSyms IsSymbol
AllSyms-IsSymbol [] = tt
AllSyms-IsSymbol (t ∷ tags) = (
  inl refl,
  AllSyms-weaken (IsSymbol tags) (IsSymbol (t ∷ tags)) tags (λ x p. inr p) (AllSyms-IsSymbol tags),
)

-- The loop from given variables on.
Ends : Bytes → (Bytes → Type 0) → List Entry → Outcome Tagging → Type 0
unfolding all_inside
Ends content Sym tags (done st) =
    (all_inside (length (line_ends content)) tags ≡ true) × IsTagged content Sym st
Ends content Sym tags failed = all_inside (length (line_ends content)) tags ≡ false
Ends content Sym tags panicked = ⊥

-- A round from given variables on.
Steps : Bytes → (Bytes → Type 0) → Entry → Outcome Tagging → Type 0
Steps content Sym t (done st) =
    (leb t.line (length (line_ends content)) ≡ true) × IsTagged content Sym st
Steps content Sym t failed = leb t.line (length (line_ends content)) ≡ false
Steps content Sym t panicked = ⊥

module _ (content : Bytes) (Sym : Bytes → Type 0) (short : length content < 2 ^ 32) where
  tag_step-Steps :
      (t : Entry) (st : Tagging)
      → Sym t.sym
      → IsTagged content Sym st
      → Steps content Sym t (tag_step content (line_ends content) t st)
  unfolding tag_step Steps Goes
  tag_step-Steps t st wanted old =
      let n = length (line_ends content) in
      let round = tag_line content (line_ends content) t.sym (t.line - 1) st in
      if-intro (Steps content Sym t) (t.line == 0) (done st)
        (if leb n (t.line - 1) then failed else round)
        (λ none_line. (ground (arith, none_line), old))
        (λ some_line.
          if-intro (Steps content Sym t) (leb n (t.line - 1)) failed round
            (λ beyond. ground (arith, some_line, beyond))
            (λ inside.
              let in_text : leb t.line n ≡ true = ground (arith, some_line, inside) in
              elim round as (λ o. Goes (IsTagged content Sym) o → Steps content Sym t o) [
                | done st' ↦ λ tagged. (in_text, tagged)
                | failed ↦ λ bad. absurd bad
                | panicked ↦ λ bad. bad
              ]
                (tag_line-Goes content Sym short t.sym (t.line - 1) st (ground (arith, inside))
                  wanted old)))

  tag_loop-Ends :
      (tags : List Entry) (st : Tagging)
      → AllSyms Sym tags
      → IsTagged content Sym st
      → Ends content Sym tags (tag_loop content (line_ends content) tags st)
  unfolding tag_loop Ends Steps AllSyms
  tag_loop-Ends [] st wanted old = (refl, old)
  tag_loop-Ends (t ∷ tags) st (wanted, rest) old =
      let n = length (line_ends content) in
      elim (tag_step content (line_ends content) t st)
          as (λ o.
            Steps content Sym t o
            → Ends content Sym (t ∷ tags) (elim o as (λ _. Outcome Tagging) [
              | done st' ↦ tag_loop content (line_ends content) tags st'
              | failed ↦ failed
              | panicked ↦ panicked
            ])) [
              | done st' ↦ λ (inside, tagged).
                  elim (tag_loop content (line_ends content) tags st')
                      as (λ o. Ends content Sym tags o → Ends content Sym (t ∷ tags) o) [
                        | done final ↦ λ (all, right). (ground (arith, inside, all), right)
                        | failed ↦ λ beyond. ground (arith, beyond)
                        | panicked ↦ λ bad. bad
                      ]
                    (tag_loop-Ends tags st' rest tagged)
              | failed ↦ λ beyond. ground (arith, beyond)
              | panicked ↦ λ bad. bad
            ]
        (tag_step-Steps t st wanted old)

accepted :
    (content : Bytes) (Sym : Bytes → Type 0) (st : Tagging)
    → length content < 2 ^ 32
    → IsTagged content Sym st
    → check_sections st.sym_offsets content ≡ none
unfolding check_sections
accepted content Sym st short tagged =
    let inside = tagged.inside in
    let second : ℕ → Option Reason =
      λ end. if ltb (length content % 2 ^ 32) end then some past_end else none in
    let fits : ltb (length content % 2 ^ 32) st.last_end ≡ false = ground (arith, inside) in
    ap (λ r. if r.1 then some sections_overlap else second r.0) tagged.ordered
    ∙ ap (λ b. if b then some past_end else none) fits

-- By the outcome: all tags are on lines of the text, and the sections pass the tests of Add and hold symbols of
-- the tags; or one is not.
unfoldable pub IsAccepted : Bytes → List Entry → Outcome (List DocumentSection) → Type 0
unfolding check_sections all_inside AllNamed IsSymbol
IsAccepted content tags (done secs) =
    (all_inside (length (line_ends content)) tags ≡ true)
    × ((check_sections secs content ≡ none) × AllNamed content (IsSymbol tags) secs)
IsAccepted content tags failed = all_inside (length (line_ends content)) tags ≡ false
IsAccepted content tags panicked = ⊥

-- On a content below 4 GiB, tagsToSections does not panic; it fails exactly if a tag is on a line behind the
-- last, and otherwise gives sections that Add accepts, as they follow one another and end in the content, and whose
-- text is the symbol of a tag.
pub tags_to_sections-IsAccepted :
    (content : Bytes) (tags : List Entry)
    → length content < 2 ^ 32
    → IsAccepted content tags (tags_to_sections content tags)
unfolding tags_to_sections IsAccepted Ends check_sections AllNamed
tags_to_sections-IsAccepted content tags short =
    let Sym : Bytes → Type 0 = IsSymbol tags in
    let start : Tagging = record {
      sym_offsets = [];
      last_end = 0;
      last_line = 0;
      last_intra_end = 0;
    } in
    let ready : IsTagged content Sym start = record {
      ordered = refl;
      inside = omega arith;
      named = tt;
      on_line = inl refl;
    } in
    elim (tag_loop content (line_ends content) tags start)
        as (λ o.
          Ends content Sym tags o
          → IsAccepted content tags (elim o as (λ _. Outcome (List DocumentSection)) [
            | done st ↦ done st.sym_offsets
            | failed ↦ failed
            | panicked ↦ panicked
          ])) [
            | done st ↦ λ (all, tagged). (all, (accepted content Sym st short tagged, tagged.named))
            | failed ↦ λ beyond. beyond
            | panicked ↦ λ bad. bad
          ]
      (tag_loop-Ends content Sym short tags start (AllSyms-IsSymbol tags) ready)
