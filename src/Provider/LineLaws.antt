-- ===== src/Provider/LineLaws.antt =====
-- matchiter.go and write.go: line finds the line of a document in which a match starts.
use mathlib.Core.Path.{subst}
use zoekt_archived.Prelude.{
  ℕ, ◌+◌, ◌-◌, ◌%◌, ◌^◌, ◌≤◌, ◌<◌, ◌≡◌, ◌≢◌, refl, ap, sym, ◌∙◌, ◌⊎◌, inl, inr, [], ◌∷◌, ◌++◌,
  append_assoc, append-nil, Bytes, length, length-append, take, get_or, get_or-append_length, leb,
  ltb, Bool-cases, ◌==◌, if◌then◌else◌, if-intro, arith,
}
use zoekt_archived.MatchTree.{Candidate}
use zoekt_archived.Hits.Memory.{IsAscending, ascending_weaken}
use zoekt_archived.Index.Slices.{take-append}
use zoekt_archived.Index.Documents.{new_lines_loop, new_lines_indices}
use zoekt_archived.Provider.Line.{line}
use zoekt_archived.Provider.LineWalk.{walk, line-walk}

unfoldable pub count_newlines : Bytes → ℕ
count_newlines [] = 0
count_newlines (c ∷ cs) = let rest = count_newlines cs in if c == 10 then rest + 1 else rest

-- The number, start and end of the line of a document that holds an offset: no newline stands between start and
-- end, the start follows a newline or is that of the document, the end is a newline or that of the document,
-- and the number is one more than that of the newlines before the end.
pub record IsLine (data' : Bytes) (off : ℕ) (num start end : ℕ) : Type 0 where
  pub start_le : start ≤ off
  pub le_end : off ≤ end
  pub end_le : end ≤ length data'
  pub has_none : (p : ℕ) → start ≤ p → p < end → get_or data' p 0 ≢ 10
  pub at_start : (start ≡ 0) ⊎ (get_or data' (start - 1) 0 ≡ 10)
  pub at_end : (end ≡ length data') ⊎ (get_or data' end 0 ≡ 10)
  pub is_number : num ≡ count_newlines (take end data') + 1

abbrev pub IsLineAt : Bytes → ℕ → ℕ × (ℕ × ℕ) → Type 0
IsLineAt data' off (num, (start, end)) = IsLine data' off num start end

count_append :
    (before : Bytes) (c : ℕ)
    → count_newlines (before ++ c ∷ [])
      ≡ (if c == 10 then count_newlines before + 1 else count_newlines before)
unfolding count_newlines
count_append [] c = ground arith
count_append (b ∷ before) c = ground (arith, count_append before c)

module _ (data' : Bytes) (off : ℕ) (fits : length data' < 2 ^ 32)
    (inside : off ≤ length data') where
  walk_new_lines :
      (before rest : Bytes) (k num start : ℕ)
      → data' ≡ before ++ rest
      → k ≡ length before
      → start ≤ off
      → start ≤ k
      → ((p : ℕ) → start ≤ p → p < k → get_or data' p 0 ≢ 10)
      → (start ≡ 0) ⊎ (get_or data' (start - 1) 0 ≡ 10)
      → num ≡ count_newlines before + 1
      → IsLineAt data' off (walk num start (length data') off (new_lines_loop k rest))
  unfolding new_lines_loop walk
  walk_new_lines before [] k num start e at le le_k none_yet first count =
      let all = e ∙ append-nil before in
      let same = ap length all in
      let whole =
        ap (λ xs. take (length data') xs) (sym (append-nil data')) ∙ take-append data' [] ∙ all in
      record {
        start_le = le;
        le_end = inside;
        end_le = omega arith;
        has_none = λ p a b. none_yet p a (omega (arith, same));
        at_start = first;
        at_end = inl refl;
        is_number = count ∙ ap (λ xs. count_newlines xs + 1) (sym whole);
      }
  walk_new_lines before (c ∷ cs) k num start e at le le_k none_yet first count =
      let size = ap length e ∙ length-append before (c ∷ cs) in
      let here : get_or data' k 0 ≡ c =
        ap (λ xs. get_or xs k 0) e
        ∙ ap (λ j. get_or (before ++ c ∷ cs) j 0) at
        ∙ get_or-append_length before cs c 0 in
      let whole = e ∙ sym (append_assoc before (c ∷ []) cs) in
      let longer : k + 1 ≡ length (before ++ c ∷ []) =
        let sum = length-append before (c ∷ []) in omega (arith, sum) in
      let counted = count_append before c in
      let front : take k data' ≡ before =
        ap (λ j. take j data') at ∙ ap (take (length before)) e ∙ take-append before (c ∷ cs) in
      let later = new_lines_loop (k + 1) cs in
      if-intro (λ ns. IsLineAt data' off (walk num start (length data') off ns)) (c == 10)
        (k % 2 ^ 32 ∷ later) later
        (λ newline.
          let place : k ≡ k % 2 ^ 32 = omega (arith, size) in
          subst (λ n. IsLineAt data' off (walk num start (length data') off (n ∷ later))) place
            (if-intro (IsLineAt data' off) (leb off k) (num, (start, k))
              (walk (num + 1) (k + 1) (length data') off later)
              (λ found. record {
                start_le = le;
                le_end = ground arith;
                end_le = omega (arith, size);
                has_none = none_yet;
                at_start = first;
                at_end = inr (here ∙ ground arith);
                is_number = count ∙ ap (λ xs. count_newlines xs + 1) (sym front);
              })
              (λ passed.
                walk_new_lines (before ++ c ∷ []) cs (k + 1) (num + 1) (k + 1) whole longer
                  (ground arith) (omega arith) (λ p a b. absurd (omega arith))
                  (inr (ap (λ j. get_or data' j 0) (omega arith) ∙ here ∙ ground arith))
                  (ground (arith, counted)))))
        (λ other.
          walk_new_lines (before ++ c ∷ []) cs (k + 1) num start whole longer le (omega arith)
            (λ p a b newline. elim (Bool-cases (ltb p k)) as (λ _. ⊥) [
              | inl before_k ↦ none_yet p a (ground arith) newline
              | inr at_k ↦
                  let place : k ≡ p = ground arith in
                  let same = sym here ∙ ap (λ j. get_or data' j 0) place ∙ newline in
                  ground (arith, same, other)
            ])
            first (ground (arith, counted)))

new_lines-IsAscending :
    (k : ℕ) (cs : Bytes) → k + length cs < 2 ^ 32 → IsAscending k (new_lines_loop k cs)
unfolding IsAscending new_lines_loop
new_lines-IsAscending k [] fits = tt
new_lines-IsAscending k (c ∷ cs) fits =
    let later = new_lines-IsAscending (k + 1) cs (omega arith) in
    let place : k ≡ k % 2 ^ 32 = omega arith in
    if-intro (IsAscending k) (c == 10) (k % 2 ^ 32 ∷ new_lines_loop (k + 1) cs)
      (new_lines_loop (k + 1) cs)
      (λ _. (
        omega arith,
        (omega arith, subst (λ n. IsAscending (n + 1) (new_lines_loop (k + 1) cs)) place later),
      ))
      (λ _. ascending_weaken (k + 1) k (new_lines_loop (k + 1) cs) (omega arith) later)

-- On the newlines of a document below 4 GiB, line gives the line that holds the offset of the match.
pub line-IsLine :
    (m : Candidate) (data' : Bytes)
    → length data' < 2 ^ 32
    → m.byte_offset ≤ length data'
    → IsLineAt data' m.byte_offset (line m (new_lines_indices data') (length data'))
unfolding new_lines_indices count_newlines
line-IsLine m data' fits inside =
    subst (IsLineAt data' m.byte_offset)
      (sym (
        line-walk m (length data') (new_lines_indices data')
          (new_lines-IsAscending 0 data' (omega arith))))
      (walk_new_lines data' m.byte_offset fits inside [] data' 0 1 0 refl refl (omega arith)
        (omega arith) (λ p a b. absurd (omega arith)) (inl refl) refl)
