-- ===== src/Build/Tags.antt =====
-- build/ctags.go: tagsToSections.
use zoekt_archived.Prelude.{
  ℕ, zero, suc, ◌+◌, ◌-◌, ◌%◌, ◌^◌, ◌||◌, List, [], ◌∷◌, ◌++◌, Option, none, some, Bytes, length,
  take, drop, get_or, ltb, leb, ◌==◌, if◌then◌else◌,
}
use zoekt_archived.Bits.Deltas.{DocumentSection}
use zoekt_archived.Provider.Fill.{shift}
use zoekt_archived.Eval.Shard.{has_prefix}
use zoekt_archived.Index.Documents.{new_lines_indices}
use zoekt_archived.Builder.Postings.{Outcome, done, failed, panicked}

-- ctags.Entry: the fields Sym and Line, with 0 for a line number that is not positive.
pub record Entry : Type 0 where
  pub sym : Bytes
  pub line : ℕ

-- bytes.Index
unfoldable pub index_of : Bytes → Bytes → Option ℕ
unfolding has_prefix
index_of [] p = if has_prefix [] p then some 0 else none
index_of (c ∷ s) p =
    let later = shift (index_of s p) in if has_prefix (c ∷ s) p then some 0 else later

-- nls
unfoldable pub line_ends : Bytes → List ℕ
unfolding new_lines_indices
line_ends content = new_lines_indices content ++ (length content % 2 ^ 32) ∷ []

-- The variables of the loop.
pub record Tagging : Type 0 where
  pub sym_offsets : List DocumentSection
  pub last_end : ℕ
  pub last_line : ℕ
  pub last_intra_end : ℕ

unfoldable pub line_start : List ℕ → ℕ → ℕ
line_start nls zero = 0
line_start nls (suc i) = (get_or nls i 0 + 1) % 2 ^ 32

-- intraOff, or `none` where it is negative: Index gives -1 for a symbol that is not found.
unfoldable pub intra_off : ℕ → Option ℕ → Option ℕ
intra_off last (some k) = some (last + k)
intra_off zero none = none
intra_off (suc last) none = some last

-- The end of a round.
unfoldable pub add_symbol : Bytes → ℕ → ℕ → Tagging → Option ℕ → Tagging
add_symbol sym line_idx line_off st none = st
add_symbol sym line_idx line_off st (some intra) =
    let start = (line_off + intra) % 2 ^ 32 in
    let end_sym = (start + length sym) % 2 ^ 32 in
    if ltb start st.last_end then st else record {
      sym_offsets = st.sym_offsets ++ record { start = start; end = end_sym } ∷ [];
      last_end = end_sym;
      last_line = line_idx;
      last_intra_end = intra + length sym;
    }

-- A round on line line_idx; a slice out of range panics.
unfoldable pub tag_line : Bytes → List ℕ → Bytes → ℕ → Tagging → Outcome Tagging
unfolding line_start index_of intra_off add_symbol
tag_line content nls sym line_idx st =
    let line_off = line_start nls line_idx in
    let end = get_or nls line_idx 0 in
    let line = take (end - line_off) (drop line_off content) in
    let last = if st.last_line == line_idx then st.last_intra_end else 0 in
    if ltb end line_off || ltb (length content) end
    then panicked
    else if ltb (length line) last
    then panicked
    else done (
        add_symbol sym line_idx line_off (record st { last_intra_end = last })
          (intra_off last (index_of (drop last line) sym)))

unfoldable pub tag_step : Bytes → List ℕ → Entry → Tagging → Outcome Tagging
unfolding tag_line
tag_step content nls t st =
    if t.line == 0
    then done st
    else if leb (length nls) (t.line - 1)
    then failed
    else tag_line content nls t.sym (t.line - 1) st

unfoldable pub tag_loop : Bytes → List ℕ → List Entry → Tagging → Outcome Tagging
unfolding tag_step
tag_loop content nls [] st = done st
tag_loop content nls (t ∷ tags) st = elim (tag_step content nls t st) as (λ _. Outcome Tagging) [
  | done st' ↦ tag_loop content nls tags st'
  | failed ↦ failed
  | panicked ↦ panicked
]

unfoldable pub tags_to_sections : Bytes → List Entry → Outcome (List DocumentSection)
unfolding line_ends tag_loop
tags_to_sections content tags =
    elim (tag_loop content (line_ends content) tags
        (record { sym_offsets = []; last_end = 0; last_line = 0; last_intra_end = 0 }))
      as (λ _. Outcome (List DocumentSection)) [
        | done st ↦ done st.sym_offsets
        | failed ↦ failed
        | panicked ↦ panicked
      ]
