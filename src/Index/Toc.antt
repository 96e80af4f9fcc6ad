-- ===== src/Index/Toc.antt =====
-- toc.go, with writeTOC and the end of IndexBuilder.Write of write.go, and readTOC and verify of read.go.
use zoekt_archived.Prelude.{ℕ, ◌+◌, ◌-◌, ◌%◌, ◌^◌, List, [], ◌∷◌, length, ◌==◌, if◌then◌else◌}
use zoekt_archived.Index.File.{Access, ok, failed, ◌>>=◌, IndexFile, read_u32}
use zoekt_archived.Index.Section.{
  Sink, Writer, SimpleSection, CompoundSection, write_u32, write_simple, write_compound,
  start_simple, end_simple, read_simple, read_compound,
}

-- The interface section, by what implements it.
pub data Section : Type 0 where
  simple : SimpleSection → Section
  compound : CompoundSection → Section

pub record IndexToc : Type 0 where
  pub file_contents : CompoundSection
  pub file_names : CompoundSection
  pub file_sections : CompoundSection
  pub postings : CompoundSection
  pub newlines : CompoundSection
  pub ngram_text : SimpleSection
  pub rune_offsets : SimpleSection
  pub file_end_runes : SimpleSection
  pub languages : SimpleSection
  pub branch_masks : SimpleSection
  pub sub_repos : SimpleSection
  pub name_ngram_text : SimpleSection
  pub name_postings : CompoundSection
  pub name_rune_offsets : SimpleSection
  pub meta_data : SimpleSection
  pub repo_meta_data : SimpleSection
  pub name_end_runes : SimpleSection
  pub content_checksums : SimpleSection
  pub rune_doc_sections : SimpleSection

unfoldable pub sections : IndexToc → List Section
sections t =
    simple t.meta_data
    ∷ simple t.repo_meta_data
    ∷ compound t.file_contents
    ∷ compound t.file_names
    ∷ compound t.file_sections
    ∷ compound t.newlines
    ∷ simple t.ngram_text
    ∷ compound t.postings
    ∷ simple t.name_ngram_text
    ∷ compound t.name_postings
    ∷ simple t.branch_masks
    ∷ simple t.sub_repos
    ∷ simple t.rune_offsets
    ∷ simple t.name_rune_offsets
    ∷ simple t.file_end_runes
    ∷ simple t.name_end_runes
    ∷ simple t.content_checksums
    ∷ simple t.languages
    ∷ simple t.rune_doc_sections
    ∷ []

-- The zero values of the types.
abbrev pub zero_section : SimpleSection
zero_section = record { off = 0; sz = 0 }

abbrev pub zero_compound : CompoundSection
zero_compound = record { data_section = zero_section; offsets = []; index = zero_section }

abbrev pub zero_toc : IndexToc
zero_toc = record {
  file_contents = zero_compound;
  file_names = zero_compound;
  file_sections = zero_compound;
  postings = zero_compound;
  newlines = zero_compound;
  ngram_text = zero_section;
  rune_offsets = zero_section;
  file_end_runes = zero_section;
  languages = zero_section;
  branch_masks = zero_section;
  sub_repos = zero_section;
  name_ngram_text = zero_section;
  name_postings = zero_compound;
  name_rune_offsets = zero_section;
  meta_data = zero_section;
  repo_meta_data = zero_section;
  name_end_runes = zero_section;
  content_checksums = zero_section;
  rune_doc_sections = zero_section;
}

module _ {W : Type 0} (out : Sink W) where
  unfoldable pub write_section : Writer W → Section → Writer W
  unfolding write_simple write_compound
  write_section w (simple s) = write_simple out w s
  write_section w (compound s) = write_compound out w s

  -- The loop of writeTOC.
  unfoldable pub write_sections : Writer W → List Section → Writer W
  unfolding write_section
  write_sections w [] = w
  write_sections w (s ∷ ss) = write_sections (write_section w s) ss

  unfoldable pub write_toc : Writer W → IndexToc → Writer W
  unfolding write_sections sections write_u32
  write_toc w toc = write_sections (write_u32 out w (length (sections toc) % 2 ^ 32)) (sections toc)

  -- IndexBuilder.Write, from the section of the table of contents on.
  unfoldable pub write_toc_section : Writer W → IndexToc → Writer W
  unfolding write_toc start_simple end_simple write_simple
  write_toc_section w toc =
      let w' = write_toc w toc in
      write_simple out w' (end_simple out w' (start_simple out w zero_section))

module _ (f : IndexFile) where
  -- The loop of readTOC, which sets the sections one by one.
  unfoldable pub read_sections : ℕ → List Section → Access (List Section)
  unfolding read_simple read_compound
  read_sections at [] = ok []
  read_sections at (simple s ∷ ss) = do
    (s', at') ← read_simple f at
    ss' ← read_sections at' ss
    ok (simple s' ∷ ss')
  read_sections at (compound s ∷ ss) = do
    (s', at') ← read_compound f at
    ss' ← read_sections at' ss
    ok (compound s' ∷ ss')

  -- readTOC on a new table: the sections that the table then has.
  unfoldable pub read_toc : Access (List Section)
  unfolding read_sections sections read_simple read_u32
  read_toc = do
    sz ← f.size
    (toc_section, at) ← read_simple f ((sz + (2 ^ 32 - 8)) % 2 ^ 32)
    (count, at') ← read_u32 f toc_section.off
    if length (sections zero_toc) == count then read_sections at' (sections zero_toc) else failed
