-- ===== src/Provider/SectionLaws.antt =====
-- contentprovider.go: findSection finds the section that holds a match.
use zoekt_archived.Prelude.{
  ℕ, zero, suc, ◌+◌, ◌-◌, ◌%◌, ◌^◌, ◌≤◌, ◌<◌, ◌≡◌, ap, sym, ◌∙◌, inl, inr, Bool, true, false, ◌&&◌,
  List, [], ◌∷◌, Option, none, some, length, get_or, ltb, leb, ◌==◌, if◌then◌else◌, Bool-cases,
  Option-cases, arith,
}
use zoekt_archived.Bits.Deltas.{DocumentSection}
use zoekt_archived.Provider.Search.{sort_search, sort_search_lem, IsChange}
use zoekt_archived.Provider.Score.{find_section, zero_doc_section}

-- Sections behind one another, none with its end before its start.
unfoldable pub IsOrdered : ℕ → List DocumentSection → Type 0
IsOrdered lo [] = Unit
IsOrdered lo (s ∷ ss) = (lo ≤ s.start) × ((s.start ≤ s.end) × IsOrdered s.end ss)

start_ge :
    (lo i : ℕ) (secs : List DocumentSection)
    → IsOrdered lo secs
    → i < length secs
    → (lo ≤ (get_or secs i zero_doc_section).start)
      × ((get_or secs i zero_doc_section).start ≤ (get_or secs i zero_doc_section).end)
unfolding IsOrdered
start_ge lo i [] o lt = absurd (omega arith)
start_ge lo zero (s ∷ ss) (a, (b, o)) lt = (a, b)
start_ge lo (suc i) (s ∷ ss) (a, (b, o)) lt =
    let (c, d) = start_ge s.end i ss o (omega arith) in (omega arith, d)

end_le_start :
    (lo i j : ℕ) (secs : List DocumentSection)
    → IsOrdered lo secs
    → i < j
    → j < length secs
    → (get_or secs i zero_doc_section).end ≤ (get_or secs j zero_doc_section).start
unfolding IsOrdered
end_le_start lo i j [] o lt short = absurd (omega arith)
end_le_start lo i zero (s ∷ ss) o lt short = absurd (omega arith)
end_le_start lo zero (suc j) (s ∷ ss) (a, (b, o)) lt short = (start_ge s.end j ss o (omega arith)).0
end_le_start lo (suc i) (suc j) (s ∷ ss) (a, (b, o)) lt short =
    end_le_start s.end i j ss o (omega arith) (omega arith)

-- The place that the search finds is the section that holds the range.
found_place :
    (secs : List DocumentSection) (e off i j : ℕ)
    → IsOrdered 0 secs
    → off < e
    → i < length secs
    → (get_or secs i zero_doc_section).start ≤ off
    → e ≤ (get_or secs i zero_doc_section).end
    → IsChange (length secs) (λ k. leb e (get_or secs k zero_doc_section).end) j
    → i ≡ j
unfolding IsChange
found_place secs e off i j o pos lt le ge (short, (above, below)) = elim (Bool-cases (ltb i j)) [
  | inl earlier ↦ elim (Bool-cases (i == j - 1)) [
    | inl same ↦
        let place : i ≡ j - 1 = ground arith in
        let eq = ap (λ k. (get_or secs k zero_doc_section).end) place in
        absurd (ground (arith, eq, below))
    | inr other ↦
        let a = end_le_start 0 i (j - 1) secs o (ground arith) (ground arith) in
        let b = start_ge 0 (j - 1) secs o (ground arith) in absurd (ground (arith, a, b, below))
  ]
  | inr later ↦ elim (Bool-cases (i == j)) [
    | inl same ↦ ground arith
    | inr other ↦
        let a = end_le_start 0 j i secs o (ground arith) lt in absurd (ground (arith, a, above))
  ]
]

-- What findSection finds, by index.
find_section_places :
    (secs : List DocumentSection) (off sz : ℕ)
    → IsOrdered 0 secs
    → 0 < sz
    → off + sz < 2 ^ 32
    → ((i : ℕ)
        → i < length secs
        → (get_or secs i zero_doc_section).start ≤ off
        → off + sz ≤ (get_or secs i zero_doc_section).end
        → find_section secs off sz ≡ some (get_or secs i zero_doc_section))
      × ((s : DocumentSection)
          → find_section secs off sz ≡ some s
          → (i : ℕ) × ((i < length secs)
              × ((get_or secs i zero_doc_section ≡ s) × ((s.start ≤ off) × (off + sz ≤ s.end)))))
unfolding find_section IsChange
find_section_places secs off sz o pos short =
    let e = (off + sz) % 2 ^ 32 in
    let p : ℕ → Bool = λ k. leb e (get_or secs k zero_doc_section).end in
    let j = sort_search (length secs) p in
    let change = sort_search_lem (length secs) p in
    let at_place : ℕ → Option DocumentSection = λ k.
      if k == length secs
      then none
      else if leb (get_or secs k zero_doc_section).start off
          && leb e (get_or secs k zero_doc_section).end
      then some (get_or secs k zero_doc_section)
      else none in
    (
      λ i lt le ge.
          let place = found_place secs e off i j o (omega arith) lt le (omega arith) change in
          let here : at_place i ≡ some (get_or secs i zero_doc_section) = ground arith in
          ap at_place (sym place) ∙ here,
      λ s found.
          let sec = get_or secs j zero_doc_section in
          let holds = leb sec.start off && leb e sec.end in
          let within : (j == length secs) ≡ false = ground (arith, found) in
          let both : holds ≡ true = ground (arith, found, within) in
          let same : sec ≡ s = ground (arith, found, within, both) in
          let starts_at = ap (λ x. x.start) same in
          let ends_at = ap (λ x. x.end) same in
          (
            j,
            (
              ground (arith, change, within),
              (same, (ground (arith, both, starts_at), ground (arith, both, ends_at))),
            ),
          ),
    )

-- The first section that starts at or before an offset and ends at or behind an end.
unfoldable pub first_holding : ℕ → ℕ → List DocumentSection → Option DocumentSection
first_holding off end [] = none
first_holding off end (s ∷ ss) =
    let later = first_holding off end ss in
    if leb s.start off && leb end s.end then some s else later

first_holding-some :
    (off end : ℕ) (secs : List DocumentSection) (s : DocumentSection)
    → first_holding off end secs ≡ some s
    → (i : ℕ) × ((i < length secs)
        × ((get_or secs i zero_doc_section ≡ s) × ((s.start ≤ off) × (end ≤ s.end))))
unfolding first_holding
first_holding-some off end [] s eq = absurd (ground (arith, eq))
first_holding-some off end (x ∷ xs) s eq = elim (Bool-cases (leb x.start off && leb end x.end)) [
  | inl here ↦
      let same : x ≡ s = ground (arith, eq, here) in
      let starts_at = ap (λ y. y.start) same in
      let ends_at = ap (λ y. y.end) same in
      (0, (omega arith, (same, (ground (arith, here, starts_at), ground (arith, here, ends_at)))))
  | inr past ↦
      let (i, (lt, rest)) = first_holding-some off end xs s (ground (arith, eq, past)) in
      (suc i, (omega arith, rest))
]

first_holding-none :
    (off end i : ℕ) (secs : List DocumentSection)
    → first_holding off end secs ≡ none
    → i < length secs
    → (get_or secs i zero_doc_section).start ≤ off
    → end ≤ (get_or secs i zero_doc_section).end
    → ⊥
unfolding first_holding
first_holding-none off end i [] eq lt le ge = omega arith
first_holding-none off end zero (x ∷ xs) eq lt le ge = ground (arith, eq)
first_holding-none off end (suc i) (x ∷ xs) eq lt le ge =
    first_holding-none off end i xs (ground (arith, eq)) (omega arith) le ge

-- On sections behind one another and a range that is not empty and ends below 4 GiB, the binary search of
-- findSection finds what a search from the front finds: the first section that holds the range, if there is one.
pub find_section_lem :
    (secs : List DocumentSection) (off sz : ℕ)
    → IsOrdered 0 secs
    → 0 < sz
    → off + sz < 2 ^ 32
    → find_section secs off sz ≡ first_holding off (off + sz) secs
find_section_lem secs off sz o pos short =
    let (finds, found) = find_section_places secs off sz o pos short in
    elim (Option-cases (first_holding off (off + sz) secs)) [
      | inr (s, eq) ↦
          let (i, (lt, (same, (le, ge)))) = first_holding-some off (off + sz) secs s eq in
          let starts_at = ap (λ y. y.start) same in
          let ends_at = ap (λ y. y.end) same in
          finds i lt (omega (arith, starts_at)) (omega (arith, ends_at)) ∙ ap some same ∙ sym eq
      | inl eq ↦ elim (Option-cases (find_section secs off sz)) [
        | inl missed ↦ missed ∙ sym eq
        | inr (s, hit) ↦
            let (i, (lt, (same, (le, ge)))) = found s hit in
            let starts_at = ap (λ y. y.start) same in
            let ends_at = ap (λ y. y.end) same in
            absurd (
              first_holding-none off (off + sz) i secs eq lt (omega (arith, starts_at))
                (omega (arith, ends_at)))
      ]
    ]
