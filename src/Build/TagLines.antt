-- ===== src/Build/TagLines.antt =====
-- build/ctags.go: a round of tagsToSections does not panic.
use mathlib.Core.Path.{subst}
use zoekt_archived.Prelude.{
  ℕ, ◌+◌, ◌-◌, ◌^◌, ◌≤◌, ◌<◌, ◌≡◌, refl, ap, sym, inl, inr, ◌⊎◌, ◌||◌, none, some, Bytes, length,
  length-drop, take, drop, get_or, ltb, ◌==◌, if◌then◌else◌, if-intro, Bool-cases, arith, ◌∙◌,
}
use zoekt_archived.Builder.Postings.{Outcome, done, failed, panicked}
use zoekt_archived.Build.Tags.{
  Tagging, index_of, line_ends, line_start, intra_off, add_symbol, tag_line,
}
use zoekt_archived.Query.Parse.Progress.{length-take}
use zoekt_archived.Build.TagLaws.{line_start_lem, slice_lem, FitsIn, index_of-FitsIn, slice_lem}
use zoekt_archived.Build.TagSections.{IsTagged, FitsAt, Starts, found_lem}

-- The round returns, with such variables.
unfoldable pub Goes : (Tagging → Type 0) → Outcome Tagging → Type 0
Goes P (done st) = P st
Goes P failed = ⊥
Goes P panicked = ⊥

module _ (content : Bytes) (Sym : Bytes → Type 0) (short : length content < 2 ^ 32) where
  last_lem :
      (idx : ℕ) (lt : idx < length (line_ends content)) (st : Tagging)
      → IsTagged content Sym st
      → (let last = if st.last_line == idx then st.last_intra_end else 0 in
          Starts content Sym short idx lt st last
          × IsTagged content Sym (record st { last_intra_end = last }))
  unfolding Starts
  last_lem idx lt st old =
      elim (Bool-cases (st.last_line == idx))
        as (λ _.
          (let last = if st.last_line == idx then st.last_intra_end else 0 in
            Starts content Sym short idx lt st last
            × IsTagged content Sym (record st { last_intra_end = last }))) [
              | inl same ↦
                  let eq : st.last_line ≡ idx = ground (arith, same) in
                  let number = ap (λ b. if b then st.last_intra_end else 0) same in
                  subst
                    (λ last.
                      Starts content Sym short idx lt st last
                      × IsTagged content Sym (record st { last_intra_end = last }))
                    (sym number)
                    (
                      subst
                          (λ i.
                            (st.last_intra_end ≡ 0)
                            ⊎ ((line_start (line_ends content) i + st.last_intra_end
                                  ≤ get_or (line_ends content) i 0)
                                × (line_start (line_ends content) i + st.last_intra_end
                                    ≤ st.last_end)))
                          eq old.on_line,
                      old,
                    )
              | inr other ↦
                  let number = ap (λ b. if b then st.last_intra_end else 0) other in
                  subst
                    (λ last.
                      Starts content Sym short idx lt st last
                      × IsTagged content Sym (record st { last_intra_end = last }))
                    (sym number)
                    (
                      inl refl,
                      record {
                        ordered = old.ordered;
                        inside = old.inside;
                        named = old.named;
                        on_line = inl refl;
                      },
                    )
            ]

  pub tag_line-Goes :
      (sym' : Bytes) (idx : ℕ) (st : Tagging)
      → idx < length (line_ends content)
      → Sym sym'
      → IsTagged content Sym st
      → Goes (IsTagged content Sym) (tag_line content (line_ends content) sym' idx st)
  unfolding tag_line Goes Starts FitsAt FitsIn
  tag_line-Goes sym' idx st lt wanted old =
      let (before, within) = line_start_lem content idx short lt in
      let first = line_start (line_ends content) idx in
      let last_place = get_or (line_ends content) idx 0 in
      let line = take (last_place - first) (drop first content) in
      let last = if st.last_line == idx then st.last_intra_end else 0 in
      let (starts, ready) = last_lem idx lt st old in
      let left = length-drop first content in
      let size =
        length-take (last_place - first) (drop first content)
          (omega (arith, left, before, within)) in
      let on_line : last ≤ length line = elim starts as (λ _. last ≤ length line) [
        | inl at_start ↦ omega (arith, at_start)
        | inr (inside, _) ↦ omega (arith, inside, size, before)
      ] in
      let room = length-drop last line in
      let o = index_of (drop last line) sym' in
      let fits : FitsAt content sym' (first + last) (length (drop last line)) o =
        elim o
            as (λ o.
              FitsIn (drop last line) sym' o
              → FitsAt content sym' (first + last) (length (drop last line)) o) [
                | none ↦ λ _. tt
                | some k ↦ λ (inside, same).
                    let place : first + last + k ≡ first + (last + k) = omega arith in
                    let slice =
                      slice_lem (length sym') k last (last_place - first) first content
                        (omega (arith, inside, room, size, on_line)) in
                    (inside, ap (λ n. take (length sym') (drop n content)) place ∙ sym slice ∙ same)
              ]
          (index_of-FitsIn (drop last line) sym') in
      let st' : Tagging = record st { last_intra_end = last } in
      let final = done (add_symbol sym' idx first st' (intra_off last o)) in
      if-intro (Goes (IsTagged content Sym))
        (ltb last_place first || ltb (length content) last_place) panicked
        (if ltb (length line) last then panicked else final)
        (λ bad. absurd (ground (arith, bad, before, within)))
        (λ _.
          if-intro (Goes (IsTagged content Sym)) (ltb (length line) last) panicked final
            (λ bad. absurd (ground (arith, bad, on_line)))
            (λ _.
              found_lem content Sym short idx lt sym' st' last (length (drop last line)) o ready
                starts (omega (arith, room, size, on_line, before)) fits wanted))
