-- ===== src/Index/Documents.antt =====
-- write.go and read.go: the contents, newlines and document sections of a shard's documents.
use zoekt_archived.Prelude.{
  ℕ, ◌+◌, ◌%◌, ◌^◌, List, [], ◌∷◌, map, Bytes, Option, none, some, ◌==◌, if◌then◌else◌,
}
use zoekt_archived.Bits.Deltas.{
  Varint, DocumentSection, to_sized_deltas, from_sized_deltas, marshal_doc_sections,
  unmarshal_doc_sections,
}
use zoekt_archived.Index.File.{Access, ok, panicked, ◌>>=◌, IndexFile}
use zoekt_archived.Index.Section.{
  Sink, Writer, CompoundSection, write_strings, relative_index, read_item, read_section_blob,
}

-- The loop of newLinesIndices.
unfoldable pub new_lines_loop : ℕ → Bytes → List ℕ
new_lines_loop i [] = []
new_lines_loop i (c ∷ cs) =
    let rest = new_lines_loop (i + 1) cs in if c == 10 then i % 2 ^ 32 ∷ rest else rest

unfoldable pub new_lines_indices : Bytes → List ℕ
unfolding new_lines_loop
new_lines_indices data' = new_lines_loop 0 data'

-- The parts of IndexBuilder.Write that fill the sections newlines and fileSections: the same calls of start,
-- addItem and end as in writeStrings, on coded items.
module _ (v : Varint) {W : Type 0} (out : Sink W) where
  unfoldable pub write_newlines :
      Writer W → CompoundSection → List Bytes → Writer W × CompoundSection
  unfolding write_strings new_lines_indices to_sized_deltas
  write_newlines w s contents =
      write_strings out w s (map (λ data'. to_sized_deltas v (new_lines_indices data')) contents)

  unfoldable pub write_doc_sections :
      Writer W → CompoundSection → List (List DocumentSection) → Writer W × CompoundSection
  unfolding write_strings marshal_doc_sections
  write_doc_sections w s docs = write_strings out w s (map (marshal_doc_sections v) docs)

-- A loop that panicked.
abbrev pub decoded : {A : Type 0} → Option A → Access A
decoded none = panicked
decoded (some a) = ok a

-- The fields of indexData that say where a kind of item is: the start of the section and its relative index.
pub record Items : Type 0 where
  pub start : ℕ
  pub index : List ℕ

-- readIndexData on a compound section of the table of contents.
unfoldable pub items_of : CompoundSection → Items
unfolding relative_index
items_of s = record { start = s.data_section.off; index = relative_index s }

module _ (f : IndexFile) where
  unfoldable pub read_contents : Items → ℕ → Access Bytes
  unfolding read_item
  read_contents boundaries i = read_item f boundaries.start boundaries.index i

  unfoldable pub read_content_slice : Items → ℕ → ℕ → Access Bytes
  unfolding read_section_blob
  read_content_slice boundaries off sz =
      read_section_blob f (record { off = (boundaries.start + off) % 2 ^ 32; sz = sz })

  module _ (v : Varint) where
    -- readNewlines and readDocSections, less the size that they also return.
    unfoldable pub read_newlines : Items → ℕ → Access (List ℕ)
    unfolding read_item from_sized_deltas
    read_newlines newlines i = do
      blob ← read_item f newlines.start newlines.index i
      decoded (from_sized_deltas v blob)

    unfoldable pub read_doc_sections : Items → ℕ → Access (List DocumentSection)
    unfolding read_item unmarshal_doc_sections
    read_doc_sections sections i = do
      blob ← read_item f sections.start sections.index i
      decoded (unmarshal_doc_sections v blob)
