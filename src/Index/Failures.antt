-- ===== src/Index/Failures.antt =====
-- section.go and indexfile_linux.go: writers after an error, and the bounds of Read.
use zoekt_archived.Prelude.{
  ℕ, ◌+◌, ◌-◌, ◌%◌, ◌^◌, ◌<◌, ◌≡◌, refl, ap, ◌∙◌, true, List, [], ◌∷◌, ◌++◌, Bytes, if◌then◌else◌,
  length, ltb, leb, ◌||◌, Bool-cases, inl, inr, take, drop, arith,
}
use zoekt_archived.Index.Words.{put_u32}
use zoekt_archived.Index.File.{ok, failed, panicked, mmaped_read}
use zoekt_archived.Index.Section.{
  Sink, Writer, SimpleSection, CompoundSection, start_simple, end_simple, start_compound, write,
  write_u32, write_words, write_simple, write_compound, add_items, add_item, write_strings,
  end_compound,
}
use zoekt_archived.Index.Toc.{
  Section, simple, compound, IndexToc, sections, zero_section, write_section, write_sections,
  write_toc, write_toc_section,
}

module _ {W : Type 0} (out : Sink W) (w : Writer W) (e : w.has_failed ≡ true) where
  write-failed : (b : Bytes) → write out w b ≡ w
  unfolding write
  write-failed b = rw (e)

  write_words-failed : (ns : List ℕ) → write_words out w ns ≡ w
  unfolding write_words write_u32
  write_words-failed [] = refl
  write_words-failed (n ∷ ns) =
      ap (λ u. write_words out u ns) (write-failed (put_u32 n)) ∙ write_words-failed ns

  write_simple-failed : (s : SimpleSection) → write_simple out w s ≡ w
  unfolding write_simple write_u32
  write_simple-failed s =
      ap (λ u. write_u32 out u s.sz) (write-failed (put_u32 s.off)) ∙ write-failed (put_u32 s.sz)

  write_section-failed : (s : Section) → write_section out w s ≡ w
  unfolding write_section write_compound
  write_section-failed (simple s) = write_simple-failed s
  write_section-failed (compound s) =
      ap (λ u. write_simple out u s.index) (write_simple-failed s.data_section)
      ∙ write_simple-failed s.index

  write_sections-failed : (ss : List Section) → write_sections out w ss ≡ w
  unfolding write_sections
  write_sections-failed [] = refl
  write_sections-failed (s ∷ ss) =
      ap (λ u. write_sections out u ss) (write_section-failed s) ∙ write_sections-failed ss

  add_items-failed : (s : CompoundSection) (items : List Bytes) → (add_items out w s items).0 ≡ w
  unfolding add_items add_item
  add_items-failed s [] = refl
  add_items-failed s (item ∷ items) =
      let s' : CompoundSection = record s { offsets = s.offsets ++ w.off ∷ [] } in
      ap (λ u. (add_items out u s' items).0) (write-failed item) ∙ add_items-failed s' items

  write_strings-failed :
      (s : CompoundSection) (items : List Bytes) → (write_strings out w s items).0 ≡ w
  unfolding write_strings end_compound
  write_strings-failed s items =
      let r = add_items out w (start_compound out w s) items in
      ap (λ u. write_words out u r.1.offsets) (add_items-failed (start_compound out w s) items)
      ∙ write_words-failed r.1.offsets

  write_toc_section-failed : (toc : IndexToc) → write_toc_section out w toc ≡ w
  unfolding write_toc_section write_toc write_u32
  write_toc_section-failed toc =
      let begun = start_simple out w zero_section in
      let ss = sections toc in
      ap (λ u. let u' = write_sections out u ss in write_simple out u' (end_simple out u' begun))
        (write-failed (put_u32 (length ss % 2 ^ 32)))
      ∙ ap (λ u. write_simple out u (end_simple out u begun)) (write_sections-failed ss)
      ∙ write_simple-failed (end_simple out w begun)

-- After an error of the underlying writer neither writeStrings nor the writing of the table of contents
-- changes the writer: no further byte is written, and the error stays.
pub writer-failed :
    {W : Type 0} (out : Sink W) (w : Writer W) (s : CompoundSection) (items : List Bytes)
    (toc : IndexToc)
    → w.has_failed ≡ true
    → ((write_strings out w s items).0 ≡ w) × (write_toc_section out w toc ≡ w)
writer-failed out w s items toc e =
    (write_strings-failed out w e s items, write_toc_section-failed out w e toc)

-- On a file below 4 GiB, Read returns the bytes from off on, sz of them, if they lie in the file; an error
-- if they do not and off + sz is below 2 ^ 32; and if the sum wraps around, an error too, or a panic where it
-- wraps around to a place in the file.
pub mmaped_read_lem :
    (file : Bytes) (off sz : ℕ)
    → length file < 2 ^ 32
    → off < 2 ^ 32
    → sz < 2 ^ 32
    → mmaped_read file off sz ≡ (
        if leb (off + sz) (length file)
        then ok (take sz (drop off file))
        else if ltb (off + sz) (2 ^ 32) || ltb (length file + 2 ^ 32) (off + sz)
        then failed
        else panicked)
unfolding mmaped_read
mmaped_read_lem file off sz fits o s = elim (Bool-cases (leb (off + sz) (length file))) [
  | inl inside ↦
      let size : (off + sz) % 2 ^ 32 - off ≡ sz = ground arith in
      ground (arith, ap (λ n. take n (drop off file)) size)
  | inr outside ↦ ground arith
]
