-- ===== src/Build/TagSections.antt =====
-- build/ctags.go: a round of tagsToSections keeps its sections in order.
use mathlib.Core.Path.{subst}
use zoekt_archived.Prelude.{
  ℕ, zero, suc, ◌+◌, ◌-◌, ◌%◌, ◌^◌, ◌≤◌, ◌<◌, ◌≡◌, ap, sym, inl, inr, ◌⊎◌, true, false, [], ◌∷◌,
  ◌++◌, Option, none, some, Bytes, length, take, drop, get_or, ltb, if◌then◌else◌, if-intro, arith,
  List, ◌∙◌,
}
use zoekt_archived.Bits.Deltas.{DocumentSection}
use zoekt_archived.Builder.Document.{sections_loop}
use zoekt_archived.Build.Tags.{Tagging, line_ends, line_start, intra_off, add_symbol}
use zoekt_archived.Build.TagLaws.{line_start_lem, sections_loop-snoc}

-- The text of every section is such a symbol.
unfoldable pub AllNamed : Bytes → (Bytes → Type 0) → List DocumentSection → Type 0
AllNamed content Sym [] = Unit
AllNamed content Sym (s ∷ secs) =
    Sym (take (s.end - s.start) (drop s.start content)) × AllNamed content Sym secs

AllNamed-snoc :
    (content : Bytes) (Sym : Bytes → Type 0) (secs : List DocumentSection) (s : DocumentSection)
    → AllNamed content Sym secs
    → Sym (take (s.end - s.start) (drop s.start content))
    → AllNamed content Sym (secs ++ s ∷ [])
unfolding AllNamed
AllNamed-snoc content Sym [] s all named = (named, tt)
AllNamed-snoc content Sym (t ∷ secs) s (first, all) named =
    (first, AllNamed-snoc content Sym secs s all named)

-- Between two rounds: the sections follow one another inside the content, and the place on the last line lies
-- on it, and behind no section.
pub record IsTagged (content : Bytes) (Sym : Bytes → Type 0) (st : Tagging) : Type 0 where
  pub ordered : sections_loop 0 st.sym_offsets ≡ (st.last_end, false)
  pub inside : st.last_end ≤ length content
  pub named : AllNamed content Sym st.sym_offsets
  pub on_line :
      (st.last_intra_end ≡ 0)
      ⊎ ((line_start (line_ends content) st.last_line + st.last_intra_end
            ≤ get_or (line_ends content) st.last_line 0)
          × (line_start (line_ends content) st.last_line + st.last_intra_end ≤ st.last_end))

-- A symbol found at a place of the content, with that much room behind it.
unfoldable pub FitsAt : Bytes → Bytes → ℕ → ℕ → Option ℕ → Type 0
FitsAt content p place room none = Unit
FitsAt content p place room (some k) =
    (k + length p ≤ room) × (take (length p) (drop (place + k) content) ≡ p)

module _ (content : Bytes) (Sym : Bytes → Type 0) (short : length content < 2 ^ 32) (idx : ℕ)
    (lt : idx < length (line_ends content)) where
  abbrev off : ℕ
  off = line_start (line_ends content) idx

  abbrev end : ℕ
  end = get_or (line_ends content) idx 0

  -- What is known of the place on the line where the search starts.
  unfoldable pub Starts : Tagging → ℕ → Type 0
  Starts st last = (last ≡ 0) ⊎ ((off + last ≤ end) × (off + last ≤ st.last_end))

  push_lem :
      (sym' : Bytes) (st : Tagging) (intra : ℕ)
      → IsTagged content Sym st
      → Sym sym'
      → take (length sym') (drop (off + intra) content) ≡ sym'
      → off + (intra + length sym') ≤ end
      → IsTagged content Sym (add_symbol sym' idx off st (some intra))
  unfolding add_symbol
  push_lem sym' st intra old wanted found fits =
      let (before, within) = line_start_lem content idx short lt in
      let start = (off + intra) % 2 ^ 32 in
      let end_sym = (start + length sym') % 2 ^ 32 in
      let whole : start ≡ off + intra = omega arith in
      let whole_end : end_sym ≡ off + (intra + length sym') = omega arith in
      let sizes : end_sym - start ≡ length sym' = omega (arith, whole, whole_end) in
      let s : DocumentSection = record { start = start; end = end_sym } in
      let new : Tagging = record {
        sym_offsets = st.sym_offsets ++ s ∷ [];
        last_end = end_sym;
        last_line = idx;
        last_intra_end = intra + length sym';
      } in
      if-intro (IsTagged content Sym) (ltb start st.last_end) st new (λ _. old)
        (λ late. record {
          ordered =
              sections_loop-snoc 0 st.last_end st.sym_offsets s old.ordered (ground (arith, late));
          inside = omega (arith, whole_end, within);
          named =
              AllNamed-snoc content Sym st.sym_offsets s old.named
                (subst Sym (sym found ∙ sym (λ i. take (sizes i) (drop (whole i) content))) wanted);
          on_line = inr (omega (arith, fits), omega (arith, whole_end));
        })

  skip_lem :
      (sym' : Bytes) (st : Tagging) (intra : ℕ)
      → IsTagged content Sym st
      → off + intra < st.last_end
      → IsTagged content Sym (add_symbol sym' idx off st (some intra))
  unfolding add_symbol
  skip_lem sym' st intra old behind =
      let start = (off + intra) % 2 ^ 32 in
      let inside = old.inside in
      let whole : start ≡ off + intra = omega (arith, inside) in
      let test : ltb start st.last_end ≡ true = ground (arith, whole) in
      subst
        (λ b. IsTagged content Sym (
          if b then st else record {
            sym_offsets =
                st.sym_offsets
                ++ record { start = start; end = (start + length sym') % 2 ^ 32 } ∷ [];
            last_end = (start + length sym') % 2 ^ 32;
            last_line = idx;
            last_intra_end = intra + length sym';
          }))
        (sym test) old

  -- A round that finds its symbol behind `last`, or not.
  pub found_lem :
      (sym' : Bytes) (st : Tagging) (last room : ℕ) (o : Option ℕ)
      → IsTagged content Sym st
      → Starts st last
      → off + last + room ≤ end
      → FitsAt content sym' (off + last) room o
      → Sym sym'
      → IsTagged content Sym (add_symbol sym' idx off st (intra_off last o))
  unfolding intra_off Starts FitsAt add_symbol
  found_lem sym' st last room (some k) old starts fits (found, same) wanted =
      let place : off + (last + k) ≡ off + last + k = omega arith in
      push_lem sym' st (last + k) old wanted
        (ap (λ n. take (length sym') (drop n content)) place ∙ same) (omega arith)
  found_lem sym' st zero room none old starts fits found wanted = old
  found_lem sym' st (suc last) room none old (inl none_before) fits found wanted =
      absurd (omega arith)
  found_lem sym' st (suc last) room none old (inr (_, behind)) fits found wanted =
      skip_lem sym' st last old (omega arith)
