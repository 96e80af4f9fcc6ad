-- ===== src/Index/DocumentLaws.antt =====
-- write.go and read.go: the contents, newlines and document sections that were written are read back.
use mathlib.Core.Path.{subst}
use zoekt_archived.Prelude.{
  ℕ, zero, suc, ◌+◌, ◌%◌, ◌^◌, ◌≤◌, ◌<◌, ◌≡◌, refl, ap, sym, ◌∙◌, List, [], ◌∷◌, ◌++◌, map, Bytes,
  length, length-append, get_or, All, if-intro, ◌==◌, arith,
}
use zoekt_archived.Bits.Deltas.{
  Varint, IsVarint, DocumentSection, to_sized_deltas, from_sized_deltas, marshal_doc_sections,
  unmarshal_doc_sections, flatten_sections,
}
use zoekt_archived.Bits.DeltasLaws.{
  IsU32, IsU32Section, from_sized_deltas-to_sized_deltas, unmarshal_doc_sections-marshal,
}
use zoekt_archived.Index.File.{ok, ◌>>=◌, mmaped_file}
use zoekt_archived.Index.Section.{
  Writer, CompoundSection, write_strings, read_section_u32, read_item, relative_index,
}
use zoekt_archived.Index.Writing.{
  starts, buffer, writer_of, no_section, strings_at, section_of, write_strings_sink,
  write_strings-buffer,
}
use zoekt_archived.Index.RoundTrip.{read_section_u32-section_of, read_item-section_of}
use zoekt_archived.Index.Documents.{
  items_of, decoded, new_lines_loop, new_lines_indices, write_newlines, write_doc_sections,
  read_contents, read_newlines, read_doc_sections,
}

get_or-map :
    {A B : Type 0} (f : A → B) (xs : List A) (i : ℕ) (a : A) (b : B)
    → i < length xs
    → get_or (map f xs) i b ≡ f (get_or xs i a)
get_or-map f [] i a b lt = absurd (omega arith)
get_or-map f (x ∷ xs) zero a b lt = refl
get_or-map f (x ∷ xs) (suc i) a b lt = get_or-map f xs i a b (omega arith)

length-map : {A B : Type 0} (f : A → B) (xs : List A) → length (map f xs) ≡ length xs
length-map f [] = refl
length-map f (x ∷ xs) = ap suc (length-map f xs)

-- The writer and the section after writeStrings on a writer in memory.
abbrev pub written : Bytes → List Bytes → Writer Bytes × CompoundSection
written out items = write_strings buffer (writer_of out) no_section items

-- What writeStrings wrote, up to 4 GiB with what follows, is read back: the offsets from the index of the
-- section, and each of the strings by the section's relative index.
pub read_contents-write_strings :
    (out : Bytes) (items : List Bytes) (after : Bytes) (size i : ℕ)
    → length ((written out items).0.sink ++ after) < 2 ^ 32
    → i < length items
    → (read_section_u32
          (mmaped_file ((written out items).0.sink ++ after) size)
          (written out items).1.index
        ≡ ok (written out items).1.offsets)
      × (read_contents
            (mmaped_file ((written out items).0.sink ++ after) size)
            (items_of (written out items).1)
            i
          ≡ ok (get_or items i []))
unfolding read_contents items_of strings_at section_of starts
read_contents-write_strings out items after size i fits lt =
    let sink = ap (λ w. length (w.sink ++ after)) (write_strings_sink out items) in
    let whole : length (strings_at out items ++ after) < 2 ^ 32 = omega (arith, sink) in
    let part = length-append (strings_at out items) after in
    subst
      (λ r.
        (read_section_u32 (mmaped_file (r.0.sink ++ after) size) r.1.index ≡ ok r.1.offsets)
        × (read_item (mmaped_file (r.0.sink ++ after) size) r.1.data_section.off
              (relative_index r.1) i
            ≡ ok (get_or items i [])))
      (sym (write_strings-buffer out items (omega (arith, part))))
      (
        read_section_u32-section_of out items after size whole,
        read_item-section_of out items after size i whole lt,
      )

new_lines_length : (i : ℕ) (cs : Bytes) → length (new_lines_loop i cs) ≤ length cs
unfolding new_lines_loop
new_lines_length i [] = omega arith
new_lines_length i (c ∷ cs) = let rest = new_lines_length (i + 1) cs in ground arith

new_lines-IsU32 : (i : ℕ) (cs : Bytes) → All IsU32 (new_lines_loop i cs)
unfolding new_lines_loop
new_lines-IsU32 i [] = tt
new_lines-IsU32 i (c ∷ cs) =
    let rest = new_lines-IsU32 (i + 1) cs in
    if-intro (All IsU32) (c == 10) (i % 2 ^ 32 ∷ new_lines_loop (i + 1) cs)
      (new_lines_loop (i + 1) cs) (λ _. (omega arith, rest)) (λ _. rest)

module _ (v : Varint) (law : IsVarint v) where
  -- The newlines of a document below 4 GiB that were written are read back.
  pub read_newlines-write_newlines :
      (out : Bytes) (contents : List Bytes) (after : Bytes) (size i : ℕ)
      → length ((write_newlines v buffer (writer_of out) no_section contents).0.sink ++ after)
        < 2 ^ 32
      → i < length contents
      → length (get_or contents i []) < 2 ^ 32
      → read_newlines
          (mmaped_file
            ((write_newlines v buffer (writer_of out) no_section contents).0.sink ++ after)
            size)
          v
          (items_of (write_newlines v buffer (writer_of out) no_section contents).1)
          i
        ≡ ok (new_lines_indices (get_or contents i []))
  unfolding read_newlines write_newlines read_contents new_lines_indices
  read_newlines-write_newlines out contents after size i fits lt short =
      let code : Bytes → Bytes = λ data'. to_sized_deltas v (new_lines_indices data') in
      let content = get_or contents i [] in
      let count = length-map code contents in
      let item =
        (read_contents-write_strings out (map code contents) after size i fits
          (omega (arith, count))).1 in
      let few = new_lines_length 0 content in
      ap (λ r. r >>= (λ b. decoded (from_sized_deltas v b))) item
      ∙ ap (λ b. decoded (from_sized_deltas v b)) (get_or-map code contents i [] [] lt)
      ∙ ap decoded (
          from_sized_deltas-to_sized_deltas v law (new_lines_indices content)
            (new_lines-IsU32 0 content) (omega (arith, few)))

  -- The sections of a document that were written, fewer than 2 ^ 55 of them, are read back.
  pub read_doc_sections-write_doc_sections :
      (out : Bytes) (docs : List (List DocumentSection)) (after : Bytes) (size i : ℕ)
      → length ((write_doc_sections v buffer (writer_of out) no_section docs).0.sink ++ after)
        < 2 ^ 32
      → i < length docs
      → All IsU32Section (get_or docs i [])
      → length (flatten_sections (get_or docs i [])) < 2 ^ 56
      → read_doc_sections
          (mmaped_file
            ((write_doc_sections v buffer (writer_of out) no_section docs).0.sink ++ after)
            size)
          v
          (items_of (write_doc_sections v buffer (writer_of out) no_section docs).1)
          i
        ≡ ok (get_or docs i [])
  unfolding read_doc_sections write_doc_sections read_contents
  read_doc_sections-write_doc_sections out docs after size i fits lt all short =
      let code = marshal_doc_sections v in
      let count = length-map code docs in
      let item =
        (read_contents-write_strings out (map code docs) after size i fits
          (omega (arith, count))).1 in
      ap (λ r. r >>= (λ b. decoded (unmarshal_doc_sections v b))) item
      ∙ ap (λ b. decoded (unmarshal_doc_sections v b)) (get_or-map code docs i [] [] lt)
      ∙ ap decoded (unmarshal_doc_sections-marshal v law (get_or docs i []) all short)
