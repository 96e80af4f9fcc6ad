-- ===== src/Builder/Occurrences.antt =====
-- indexbuilder.go and bits.go: the postings that newSearchableString leaves decode to the places of each n-gram.
use zoekt_archived.Prelude.{
  ℕ, ◌%◌, ◌^◌, ◌<◌, ◌≡◌, refl, ap, ◌∙◌, true, false, List, [], ◌∷◌, ◌++◌, map, some, Bytes, length,
  All, ◌==◌, if◌then◌else◌, if-intro, arith,
}
use zoekt_archived.Bits.Ngrams.{RuneNgramOff, split_ngrams}
use zoekt_archived.Bits.Deltas.{Varint, IsVarint, DocumentSection, from_deltas}
use zoekt_archived.Bits.DeltasLaws.{IsU32, from_deltas-put_deltas}
use zoekt_archived.Builder.Map.{find}
use zoekt_archived.Builder.Postings.{
  PostingsBuilder, RuneScan, new_postings_builder, new_searchable_string, start_scan, rune_loop,
  finish_string, is_behind, count_runes, end_string,
}
use zoekt_archived.Builder.PostingLaws.{
  Gram, IsPosted, offsets_of, gram_of, grams_of, rune_loop-IsPosted,
}

AllU32-append :
    (xs ys : List Gram)
    → All (λ g. IsU32 g.1) xs
    → All (λ g. IsU32 g.1) ys
    → All (λ g. IsU32 g.1) (xs ++ ys)
AllU32-append [] ys a b = b
AllU32-append (x ∷ xs) ys (u, a) b = (u, AllU32-append xs ys a b)

AllU32-grams : (base : ℕ) (es : List RuneNgramOff) → All (λ g. IsU32 g.1) (map (gram_of base) es)
unfolding gram_of
AllU32-grams base [] = tt
AllU32-grams base (e ∷ es) = (omega arith, AllU32-grams base es)

AllU32-offsets :
    (g : ℕ) (grams : List Gram) → All (λ h. IsU32 h.1) grams → All IsU32 (offsets_of g grams)
unfolding offsets_of
AllU32-offsets g [] all = tt
AllU32-offsets g ((h, o) ∷ grams) (u, all) =
    let rest = AllU32-offsets g grams all in
    if-intro (All IsU32) (h == g) (o ∷ offsets_of g grams) (offsets_of g grams) (λ _. (u, rest))
      (λ _. rest)

module _ (v : Varint) where
  pub new_postings_builder-IsPosted : IsPosted v new_postings_builder []
  unfolding IsPosted new_postings_builder
  new_postings_builder-IsPosted g = (refl, refl)

  finish_string-IsPosted :
      (n : ℕ) (t : RuneScan) (grams : List Gram)
      → IsPosted v t.builder grams
      → IsPosted v (finish_string v n t).builder grams
  unfolding finish_string IsPosted
  finish_string-IsPosted n t grams posted =
      elim (is_behind t.byte_count t.byte_boundaries)
        as (λ b. IsPosted v (if b then count_runes t else end_string n (count_runes t)) grams) [
          | true ↦ posted
          | false ↦ posted
        ]

module _ (v : Varint) (law : IsVarint v) where
  -- If a builder holds the given occurrences, all at uint32 offsets, then after newSearchableString on a text
  -- below 4 GiB, with an error or without, it also holds those of the text, which are the entries of splitNGrams;
  -- and the postings of every n-gram decode to its offsets, in order.
  pub new_searchable_string-IsPosted :
      (s : PostingsBuilder) (text : Bytes) (secs : List DocumentSection) (grams : List Gram)
      → length text < 2 ^ 32
      → All (λ g. IsU32 g.1) grams
      → IsPosted v s grams
      → IsPosted v
          (new_searchable_string v s text secs).builder
          (grams ++ grams_of s.rune_count text)
        × ((g : ℕ)
            → from_deltas v (find g [] (new_searchable_string v s text secs).builder.postings)
              ≡ some (offsets_of g (grams ++ grams_of s.rune_count text)))
  unfolding new_searchable_string start_scan grams_of IsPosted
  new_searchable_string-IsPosted s text secs grams short all posted =
      let start = start_scan v s secs in
      let scanned =
        rune_loop-IsPosted v (length text) text start grams (0, (0, 0)) 0 (omega arith) posted in
      let done =
        finish_string-IsPosted v (length text % 2 ^ 32) (rune_loop v (length text) text start)
          (grams ++ grams_of s.rune_count text) scanned in
      (
        done,
        λ g.
            ap (from_deltas v) (done g).0
            ∙ from_deltas-put_deltas v law (offsets_of g (grams ++ grams_of s.rune_count text)) (
                AllU32-offsets g (grams ++ grams_of s.rune_count text) (
                  AllU32-append grams (grams_of s.rune_count text) all
                    (AllU32-grams s.rune_count (split_ngrams text)))),
      )
