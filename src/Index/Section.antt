-- ===== src/Index/Section.antt =====
-- section.go and toc.go, with the functions of write.go and read.go that work on sections.
use zoekt_archived.Prelude.{
  ℕ, zero, suc, ◌+◌, ◌-◌, ◌%◌, ◌^◌, Bool, List, [], ◌∷◌, ◌++◌, Bytes, none, some, length, get_or,
  ◌==◌, if◌then◌else◌,
}
use zoekt_archived.Index.Words.{put_u32, put_u64, get_u32}
use zoekt_archived.Index.File.{Access, ok, failed, panicked, ◌>>=◌, IndexFile, read_u32}

-- An io.Writer: what it is after a Write, the number of bytes written, and whether there was an error.
pub record Sink (W : Type 0) : Type 0 where
  pub sink_write : W → Bytes → W × (ℕ × Bool)

-- writer
pub record Writer (W : Type 0) : Type 0 where
  pub has_failed : Bool
  pub sink : W
  pub off : ℕ

pub record SimpleSection : Type 0 where
  pub off : ℕ
  pub sz : ℕ

pub record CompoundSection : Type 0 where
  pub data_section : SimpleSection
  pub offsets : List ℕ
  pub index : SimpleSection

module _ {W : Type 0} (out : Sink W) where
  unfoldable pub write : Writer W → Bytes → Writer W
  write w b =
      let (s, (n, e)) = out.sink_write w.sink b in
      let written : Writer W = record {
        has_failed = e;
        sink = s;
        off = (w.off + n % 2 ^ 32) % 2 ^ 32;
      } in
      if w.has_failed then w else written

  unfoldable pub write_u32 : Writer W → ℕ → Writer W
  unfolding write put_u32
  write_u32 w n = write w (put_u32 n)

  unfoldable pub write_u64 : Writer W → ℕ → Writer W
  unfolding write put_u64
  write_u64 w n = write w (put_u64 n)

  -- simpleSection.start and end.
  unfoldable pub start_simple : Writer W → SimpleSection → SimpleSection
  start_simple w s = record s { off = w.off }

  unfoldable pub end_simple : Writer W → SimpleSection → SimpleSection
  end_simple w s = record s { sz = (w.off + (2 ^ 32 - s.off)) % 2 ^ 32 }

  unfoldable pub write_simple : Writer W → SimpleSection → Writer W
  unfolding write_u32
  write_simple w s = write_u32 (write_u32 w s.off) s.sz

  -- compoundSection.start, addItem and end.
  unfoldable pub start_compound : Writer W → CompoundSection → CompoundSection
  unfolding start_simple
  start_compound w s = record s { data_section = start_simple w s.data_section }

  unfoldable pub add_item : Writer W → CompoundSection → Bytes → Writer W × CompoundSection
  unfolding write
  add_item w s item = (write w item, record s { offsets = s.offsets ++ w.off ∷ [] })

  unfoldable pub write_words : Writer W → List ℕ → Writer W
  unfolding write_u32
  write_words w [] = w
  write_words w (o ∷ os) = write_words (write_u32 w o) os

  unfoldable pub end_compound : Writer W → CompoundSection → Writer W × CompoundSection
  unfolding end_simple start_simple write_words
  end_compound w s =
      let w' = write_words w s.offsets in
      (
        w',
        record s {
          data_section = end_simple w s.data_section;
          index = end_simple w' (start_simple w s.index);
        },
      )

  unfoldable pub write_compound : Writer W → CompoundSection → Writer W
  unfolding write_simple
  write_compound w s = write_simple (write_simple w s.data_section) s.index

  -- compoundSection.writeStrings, on the data of the strings.
  unfoldable pub add_items : Writer W → CompoundSection → List Bytes → Writer W × CompoundSection
  unfolding add_item
  add_items w s [] = (w, s)
  add_items w s (item ∷ items) = let (w', s') = add_item w s item in add_items w' s' items

  unfoldable pub write_strings :
      Writer W → CompoundSection → List Bytes → Writer W × CompoundSection
  unfolding start_compound add_items end_compound
  write_strings w s items =
      let (w', s') = add_items w (start_compound w s) items in end_compound w' s'

-- The loop of readSectionU32; the fuel is the length of the blob.
unfoldable pub words_loop : ℕ → Bytes → Access (List ℕ)
words_loop fuel [] = ok []
words_loop zero (b ∷ bs) = panicked
words_loop (suc fuel) (b ∷ bs) = elim (get_u32 (b ∷ bs)) as (λ _. Access (List ℕ)) [
  | none ↦ panicked
  | some (n, rest) ↦ do ns ← words_loop fuel rest; ok (n ∷ ns)
]

module _ (f : IndexFile) where
  unfoldable pub read_section_blob : SimpleSection → Access Bytes
  read_section_blob sec = f.read sec.off sec.sz

  unfoldable pub read_section_u32 : SimpleSection → Access (List ℕ)
  unfolding words_loop read_section_blob
  read_section_u32 sec =
      let words = (do blob ← read_section_blob sec; words_loop (length blob) blob) in
      if sec.sz % 4 == 0 then words else failed

  -- simpleSection.read and compoundSection.read: the section, and the reader's offset after it.
  unfoldable pub read_simple : ℕ → Access (SimpleSection × ℕ)
  unfolding read_u32
  read_simple at = do
    (o, at') ← read_u32 f at
    (n, at'') ← read_u32 f at'
    ok (record { off = o; sz = n }, at'')

  unfoldable pub read_compound : ℕ → Access (CompoundSection × ℕ)
  unfolding read_simple read_section_u32
  read_compound at = do
    (d, at') ← read_simple at
    (i, at'') ← read_simple at'
    os ← read_section_u32 i
    ok (record { data_section = d; offsets = os; index = i }, at'')

-- The loop of relativeIndex.
unfoldable pub relative_offsets : ℕ → List ℕ → List ℕ
relative_offsets first [] = []
relative_offsets first (o ∷ os) = ((o + (2 ^ 32 - first)) % 2 ^ 32) ∷ relative_offsets first os

unfoldable pub relative_index : CompoundSection → List ℕ
unfolding relative_offsets
relative_index s = elim s.offsets as (λ _. List ℕ) [
  | [] ↦ []
  | o ∷ os ↦ relative_offsets o (o ∷ os) ++ s.data_section.sz ∷ []
]

-- readContents, readNewlines and readDocSections read item i of a section by its relative index.
unfoldable pub read_item : IndexFile → ℕ → List ℕ → ℕ → Access Bytes
unfolding read_section_blob
read_item f start index i = read_section_blob f (record {
  off = (start + get_or index i 0) % 2 ^ 32;
  sz = (get_or index (suc i) 0 + (2 ^ 32 - get_or index i 0)) % 2 ^ 32;
})
