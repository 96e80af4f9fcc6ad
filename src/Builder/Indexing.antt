-- ===== src/Builder/Indexing.antt =====
-- indexbuilder.go and contentprovider.go: newSearchableString keeps the tables right, and findOffset reads them.
use mathlib.Core.Path.{subst}
use zoekt_archived.Prelude.{
  ℕ, suc, ◌+◌, ◌-◌, ◌%◌, ◌^◌, ◌≤◌, ◌<◌, ◌≡◌, refl, ap, sym, ◌∙◌, inl, inr, List, [], ◌∷◌, ◌++◌,
  Bytes, length, length-append, take, ltb, leb, Bool-cases, arith,
}
use zoekt_archived.Bits.Deltas.{Varint, DocumentSection}
use zoekt_archived.Index.Writing.{flat}
use zoekt_archived.Provider.OffsetLaws.{bytes_of_runes}
use zoekt_archived.Builder.Postings.{
  PostingsBuilder, RuneScan, done, new_searchable_string, start_scan, rune_loop, count_runes,
  end_string,
}
use zoekt_archived.Builder.SampleLaws.{IsSampledTo, IsScanned, rune_loop-IsScanned}
use zoekt_archived.Builder.OffsetTables.{
  IsIndexed, IsApart, runes_to, flat-snoc, take-snoc, take_all, past_text, runes_to-old,
  runes_to-new, finish_string-done, sample_more,
}

unfoldable with_text : ℕ → RuneScan → PostingsBuilder
unfolding end_string count_runes
with_text n u = end_string n (count_runes u)

-- A builder behind the loop over a text, in the loop's last state u.
module _ (s : PostingsBuilder) (docs : List Bytes) (text : Bytes) (start : RuneScan) (u : RuneScan)
    (same : start.builder ≡ s) (index0 : start.rune_index ≡ 0)
    (short : length (flat docs) + length text < 2 ^ 32)
    (apart : IsApart s.rune_count (flat docs) text) (old : IsIndexed s docs)
    (scan : IsScanned (λ n. bytes_of_runes n (flat docs ++ text)) text start u) where
  abbrev after : PostingsBuilder
  after = with_text (length text % 2 ^ 32) u

  abbrev all_docs : List Bytes
  all_docs = docs ++ text ∷ []

  added_count : after.rune_count ≡ s.rune_count + u.rune_index
  unfolding with_text
  added_count =
      let le = scan.le_index in
      let few = old.few_runes in
      omega (arith, scan.same_count, ap (λ b. b.rune_count) same, le, index0, few)

  added_length : length (flat all_docs) ≡ length (flat docs) + length text
  added_length = ap length (flat-snoc docs text) ∙ length-append (flat docs) text

  added_counted : bytes_of_runes after.rune_count (flat all_docs) ≡ length (flat all_docs)
  unfolding IsApart
  added_counted =
      let minus : u.rune_index ≡ u.rune_index - start.rune_index = omega (arith, index0) in
      let all = ap (λ n. bytes_of_runes n text) minus ∙ scan.all_runes in
      let before = apart s.rune_count (omega arith) ∙ old.counted in
      let at_text = past_text s.rune_count u.rune_index (flat docs) text before in
      (λ i. bytes_of_runes (added_count i) (flat-snoc docs text i))
      ∙ omega (arith, at_text, all, added_length)

  old_ends : u.builder.end_runes ≡ s.end_runes
  old_ends = scan.same_ends ∙ ap (λ b. b.end_runes) same

  added_each : length after.end_runes ≡ length all_docs
  unfolding with_text
  added_each =
      let each = old.each in
      length-append u.builder.end_runes (after.rune_count ∷ [])
      ∙ omega (arith, length-append docs (text ∷ []), each, ap length old_ends)

  added_last : runes_to after.end_runes (length all_docs) ≡ after.rune_count
  unfolding with_text
  added_last =
      let place : length all_docs ≡ suc (length u.builder.end_runes) =
        omega (arith, added_each, length-append u.builder.end_runes (after.rune_count ∷ [])) in
      ap (runes_to after.end_runes) place ∙ runes_to-new u.builder.end_runes after.rune_count

  old_end : (i : ℕ) → i ≤ length docs → runes_to after.end_runes i ≡ runes_to s.end_runes i
  unfolding with_text
  old_end i le =
      let each = old.each in
      runes_to-old u.builder.end_runes after.rune_count i (omega (arith, ap length old_ends, each))
      ∙ ap (λ xs. runes_to xs i) old_ends

  added_ends :
      (i : ℕ)
      → i ≤ length all_docs
      → (runes_to after.end_runes i ≤ after.rune_count)
        × (bytes_of_runes (runes_to after.end_runes i) (flat all_docs)
            ≡ length (flat (take i all_docs)))
  unfolding IsApart
  added_ends i le = elim (Bool-cases (leb i (length docs))) [
    | inl early ↦
        let within : i ≤ length docs = ground arith in
        let fits = old.inside i within in
        (
          omega (arith, added_count, old_end i within, fits),
          (λ j. bytes_of_runes (old_end i within j) (flat-snoc docs text j))
              ∙ apart (runes_to s.end_runes i) fits
              ∙ old.ends i within
              ∙ ap (λ ds. length (flat ds)) (sym (take-snoc i docs text within)),
        )
    | inr late ↦
        let more = length-append docs (text ∷ []) in
        let final : i ≡ length all_docs = ground (arith, more) in
        let at_end = ap (runes_to after.end_runes) final ∙ added_last in
        (
          omega (arith, at_end),
          ap (λ n. bytes_of_runes n (flat all_docs)) at_end
              ∙ added_counted
              ∙ ap (λ ds. length (flat ds))
                  (sym (ap (λ j. take j all_docs) final ∙ take_all all_docs)),
        )
  ]

  added_sampled :
      IsSampledTo (λ n. bytes_of_runes n (flat all_docs)) after.rune_offsets after.rune_count
  unfolding with_text
  added_sampled =
      let place : start.builder.rune_count + u.rune_index ≡ after.rune_count =
        omega (arith, added_count, ap (λ b. b.rune_count) same) in
      subst (λ xs. IsSampledTo (λ n. bytes_of_runes n xs) after.rune_offsets after.rune_count)
        (sym (flat-snoc docs text))
        (subst (IsSampledTo (λ n. bytes_of_runes n (flat docs ++ text)) u.builder.rune_offsets)
          place scan.sampled)

  added_proper :
      (n : ℕ) → n < after.rune_count → bytes_of_runes n (flat all_docs) < length (flat all_docs)
  unfolding IsApart
  added_proper n lt =
      let r = s.rune_count in
      let whole = ap (bytes_of_runes n) (flat-snoc docs text) in
      elim (Bool-cases (ltb n r)) [
        | inl early ↦
            let below : n < r = ground arith in
            let fits = old.proper n below in
            omega (arith, whole, apart n (omega arith), fits, added_length)
        | inr late ↦
            let sum : r + (n - r) ≡ n = ground arith in
            let before = apart r (omega arith) ∙ old.counted in
            let here = ap (λ m. bytes_of_runes m (flat docs ++ text)) sum in
            let past = past_text r (n - r) (flat docs) text before in
            let fits = scan.runes_within (n - r) (omega (arith, added_count, sum, index0)) in
            omega (arith, whole, here, past, fits, added_length)
      ]

  with_text-IsIndexed : IsIndexed after all_docs
  unfolding with_text
  with_text-IsIndexed =
      let few = old.few_runes in
      let le = scan.le_index in
      record {
        counted = added_counted;
        ended = omega (arith, scan.same_byte, ap (λ b. b.end_byte) same, old.ended, added_length);
        sampled = added_sampled;
        few_runes = omega (arith, added_count, few, added_length, le, index0);
        proper = added_proper;
        each = added_each;
        last_end = added_last;
        inside = λ i le. (added_ends i le).0;
        ends = λ i le. (added_ends i le).1;
      }

module _ (v : Varint) where
  -- If the tables of a builder are right for the texts with_text so far, all the texts are below 4 GiB, no rune of
  -- them goes on in the new text, and newSearchableString succeeds on it, then the tables are right for all.
  pub new_searchable_string-IsIndexed :
      (s : PostingsBuilder) (docs : List Bytes) (text : Bytes)
      (secs rune_secs : List DocumentSection)
      → length (flat docs) + length text < 2 ^ 32
      → IsApart s.rune_count (flat docs) text
      → IsIndexed s docs
      → (new_searchable_string v s text secs).rune_sections ≡ done rune_secs
      → IsIndexed (new_searchable_string v s text secs).builder (docs ++ text ∷ [])
  unfolding new_searchable_string start_scan with_text IsApart
  new_searchable_string-IsIndexed s docs text secs rune_secs short apart old good =
      let few = old.few_runes in
      let ended = old.ended in
      let start = start_scan v s secs in
      let u = rune_loop v (length text) text start in
      let pos : ℕ → ℕ = λ n. bytes_of_runes n (flat docs ++ text) in
      let at : (n : ℕ) → pos (s.rune_count + 0 + n) ≡ s.end_byte + 0 + bytes_of_runes n text = λ n.
        let place : s.rune_count + 0 + n ≡ s.rune_count + n = omega arith in
        ap pos place
        ∙ past_text s.rune_count n (flat docs) text (apart s.rune_count (omega arith) ∙ old.counted)
        ∙ omega (arith, ended) in
      let place : s.rune_count ≡ s.rune_count + 0 = omega arith in
      let sampled =
        subst (IsSampledTo pos s.rune_offsets) place
          (sample_more (flat docs) text s.rune_offsets s.rune_count apart old.sampled) in
      let scan =
        rune_loop-IsScanned v (length text) text start pos (omega arith) (omega (arith, few))
          (omega (arith, ended)) at sampled in
      subst (λ b. IsIndexed b (docs ++ text ∷ []))
        (sym (finish_string-done v (length text % 2 ^ 32) u rune_secs good))
        (with_text-IsIndexed s docs text start u refl refl short apart old scan)
