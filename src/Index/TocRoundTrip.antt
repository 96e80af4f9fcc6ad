-- ===== src/Index/TocRoundTrip.antt =====
-- read.go: the table of contents that was written at the end of a file is read back.
use zoekt_archived.Prelude.{
  ℕ, ◌+◌, ◌-◌, ◌%◌, ◌^◌, ◌<◌, ◌≡◌, refl, ap, sym, ◌∙◌, if◌then◌else◌, ◌==◌, List, [], ◌∷◌, ◌++◌,
  Bytes, length, length-append, map, All, append_assoc, arith,
}
use zoekt_archived.Bits.DeltasLaws.{IsU32}
use zoekt_archived.Index.Words.{put_u32, get_u32}
use zoekt_archived.Index.WordLaws.{get-put_u32}
use zoekt_archived.Index.File.{ok, failed, ◌>>=◌, word_of, mmaped_file, mmaped_read, read_u32}
use zoekt_archived.Index.Slices.{mmaped_read-append}
use zoekt_archived.Index.Writing.{buffer, writer_of, write-buffer}
use zoekt_archived.Index.Section.{
  SimpleSection, CompoundSection, write_u32, write_simple, read_simple, read_compound,
  read_section_u32, start_simple, end_simple,
}
use zoekt_archived.Index.Toc.{
  Section, simple, compound, IndexToc, sections, zero_section, zero_toc, write_sections, write_toc,
  write_toc_section, read_sections, read_toc,
}
use zoekt_archived.Index.TocBytes.{
  simple_bytes, section_bytes, toc_bytes, zero_of, write_simple-buffer, write_sections-buffer,
}

-- The numbers of a section are those of Go, and the offsets of a compound section stand in the file at
-- its index.
abbrev pub IsStored : Bytes → Section → Type 0
IsStored file (simple s) = IsU32 s.off × IsU32 s.sz
IsStored file (compound s) =
    (IsU32 s.data_section.off × IsU32 s.data_section.sz)
    × ((IsU32 s.index.off × IsU32 s.index.sz)
        × (read_section_u32 (mmaped_file file (length file)) s.index ≡ ok s.offsets))

-- A word, a section or a list of them at some place of a file.
module _ (file : Bytes) (size : ℕ) (fits : length file < 2 ^ 32) where
  read_u32_at :
      (before after : Bytes) (n : ℕ)
      → file ≡ before ++ (put_u32 n ++ after)
      → IsU32 n
      → read_u32 (mmaped_file file size) (length before) ≡ ok (n, length (before ++ put_u32 n))
  unfolding read_u32 put_u32
  read_u32_at before after n e lt =
      let a = length-append before (put_u32 n ++ after) in
      let same = ap length e in
      let next : (length before + 4) % 2 ^ 32 ≡ length (before ++ put_u32 n) =
        let b = length-append before (put_u32 n) in omega (arith, a, b, same) in
      let bytes =
        ap (λ xs. mmaped_read xs (length before) 4) e
        ∙ mmaped_read-append before (put_u32 n) after (length before) 4 (omega (arith, same)) refl
            refl in
      ap (λ r. r >>= (λ b. word_of (get_u32 b) >>= (λ m. ok (m, (length before + 4) % 2 ^ 32))))
        bytes
      ∙ ap (λ r. word_of r >>= (λ m. ok (m, (length before + 4) % 2 ^ 32))) (get-put_u32 n [] lt)
      ∙ ap (λ m. ok (n, m)) next

  read_simple_at :
      (before after : Bytes) (s : SimpleSection)
      → file ≡ before ++ (simple_bytes s ++ after)
      → IsU32 s.off × IsU32 s.sz
      → read_simple (mmaped_file file size) (length before)
        ≡ ok (s, length (before ++ simple_bytes s))
  unfolding read_simple
  read_simple_at before after s e (o, n) =
      let first = e ∙ ap (λ xs. before ++ xs) (append_assoc (put_u32 s.off) (put_u32 s.sz) after) in
      let second = first ∙ sym (append_assoc before (put_u32 s.off) (put_u32 s.sz ++ after)) in
      ap
        (λ r. r >>= (λ v.
          read_u32 (mmaped_file file size) v.1 >>= (λ u. ok (record { off = v.0; sz = u.0 }, u.1))))
        (read_u32_at before (put_u32 s.sz ++ after) s.off first o)
      ∙ ap (λ r. r >>= (λ u. ok (record { off = s.off; sz = u.0 }, u.1)))
          (read_u32_at (before ++ put_u32 s.off) after s.sz second n)
      ∙ ap (λ xs. ok (s, length xs)) (append_assoc before (put_u32 s.off) (put_u32 s.sz))

  read_compound_at :
      (before after : Bytes) (s : CompoundSection)
      → file ≡ before ++ (section_bytes (compound s) ++ after)
      → IsStored file (compound s)
      → read_compound (mmaped_file file size) (length before)
        ≡ ok (s, length (before ++ section_bytes (compound s)))
  unfolding read_compound
  read_compound_at before after s e (d, (i, os)) =
      let f = mmaped_file file size in
      let first =
        e
        ∙ ap (λ xs. before ++ xs)
            (append_assoc (simple_bytes s.data_section) (simple_bytes s.index) after) in
      let second =
        first
        ∙ sym (append_assoc before (simple_bytes s.data_section) (simple_bytes s.index ++ after)) in
      ap
        (λ r. r >>= (λ v. read_simple f v.1 >>= (λ u.
          read_section_u32 f u.0
          >>= (λ xs. ok (record { data_section = v.0; offsets = xs; index = u.0 }, u.1)))))
        (read_simple_at before (simple_bytes s.index ++ after) s.data_section first d)
      ∙ ap
          (λ r. r >>= (λ u. read_section_u32 f u.0 >>= (λ xs.
            ok (record { data_section = s.data_section; offsets = xs; index = u.0 }, u.1))))
          (read_simple_at (before ++ simple_bytes s.data_section) after s.index second i)
      ∙ ap
          (λ r. r >>= (λ xs. ok (
            record { data_section = s.data_section; offsets = xs; index = s.index },
            length ((before ++ simple_bytes s.data_section) ++ simple_bytes s.index),
          )))
          os
      ∙ ap (λ xs. ok (s, length xs))
          (append_assoc before (simple_bytes s.data_section) (simple_bytes s.index))

  read_sections_at :
      (before after : Bytes) (ss : List Section)
      → file ≡ before ++ (toc_bytes ss ++ after)
      → All (IsStored file) ss
      → read_sections (mmaped_file file size) (length before) (map zero_of ss) ≡ ok ss
  unfolding read_sections toc_bytes
  read_sections_at before after [] e all = refl
  read_sections_at before after (simple s ∷ ss) e (p, all) =
      let f = mmaped_file file size in
      let bytes = section_bytes (simple s) in
      let first = e ∙ ap (λ xs. before ++ xs) (append_assoc bytes (toc_bytes ss) after) in
      let second = first ∙ sym (append_assoc before bytes (toc_bytes ss ++ after)) in
      ap (λ r. r >>= (λ v. read_sections f v.1 (map zero_of ss) >>= (λ xs. ok (simple v.0 ∷ xs))))
        (read_simple_at before (toc_bytes ss ++ after) s first p)
      ∙ ap (λ r. r >>= (λ xs. ok (simple s ∷ xs)))
          (read_sections_at (before ++ bytes) after ss second all)
  read_sections_at before after (compound s ∷ ss) e (p, all) =
      let f = mmaped_file file size in
      let bytes = section_bytes (compound s) in
      let first = e ∙ ap (λ xs. before ++ xs) (append_assoc bytes (toc_bytes ss) after) in
      let second = first ∙ sym (append_assoc before bytes (toc_bytes ss ++ after)) in
      ap (λ r. r >>= (λ v. read_sections f v.1 (map zero_of ss) >>= (λ xs. ok (compound v.0 ∷ xs))))
        (read_compound_at before (toc_bytes ss ++ after) s first p)
      ∙ ap (λ r. r >>= (λ xs. ok (compound s ∷ xs)))
          (read_sections_at (before ++ bytes) after ss second all)

-- The file up to the section of the table of contents, and that section.
toc_end : Bytes → IndexToc → Bytes
unfolding toc_bytes
toc_end body toc = body ++ (put_u32 (length (sections toc)) ++ toc_bytes (sections toc))

toc_section : Bytes → IndexToc → SimpleSection
unfolding toc_end start_simple end_simple
toc_section body toc =
    end_simple buffer (writer_of (toc_end body toc))
      (start_simple buffer (writer_of body) zero_section)

write_toc_section-buffer :
    (body : Bytes) (toc : IndexToc)
    → write_toc_section buffer (writer_of body) toc
      ≡ writer_of (toc_end body toc ++ simple_bytes (toc_section body toc))
unfolding write_toc_section write_toc write_u32 toc_end toc_section sections
write_toc_section-buffer body toc =
    let ss = sections toc in
    let begun = start_simple buffer (writer_of body) zero_section in
    ap
      (λ w.
        let w' = write_sections buffer w ss in write_simple buffer w' (end_simple buffer w' begun))
      (write-buffer body (put_u32 19))
    ∙ ap (λ w. write_simple buffer w (end_simple buffer w begun))
        (write_sections-buffer (body ++ put_u32 19) ss
          ∙ ap writer_of (append_assoc body (put_u32 19) (toc_bytes ss)))
    ∙ write_simple-buffer (toc_end body toc) (toc_section body toc)

-- The file that the end of IndexBuilder.Write leaves.
unfoldable pub toc_file : Bytes → IndexToc → Bytes
unfolding write_toc_section
toc_file body toc = (write_toc_section buffer (writer_of body) toc).sink

read_toc-toc_end :
    (body pad : Bytes) (toc : IndexToc) (file : Bytes)
    → file ≡ toc_end body toc ++ (simple_bytes (toc_section body toc) ++ pad)
    → length file < 2 ^ 32
    → All (IsStored file) (sections toc)
    → read_toc (mmaped_file file (length (toc_end body toc) + 8)) ≡ ok (sections toc)
unfolding read_toc sections toc_end toc_section start_simple end_simple
read_toc-toc_end body pad toc file e fits stored =
    let ss = sections toc in
    let sz = length (toc_end body toc) + 8 in
    let f = mmaped_file file sz in
    let s = toc_section body toc in
    let tail = simple_bytes s ++ pad in
    let a = length-append (toc_end body toc) tail in
    let b = length-append body (put_u32 19 ++ toc_bytes ss) in
    let same = ap length e in
    let at : (sz + (2 ^ 32 - 8)) % 2 ^ 32 ≡ length (toc_end body toc) = omega (arith, a, same) in
    let start : s.off ≡ length body = omega (arith, a, b, same) in
    let first =
      e
      ∙ append_assoc body (put_u32 19 ++ toc_bytes ss) tail
      ∙ ap (λ xs. body ++ xs) (append_assoc (put_u32 19) (toc_bytes ss) tail) in
    let second = first ∙ sym (append_assoc body (put_u32 19) (toc_bytes ss ++ tail)) in
    ap
      (λ n. read_simple f n >>= (λ v.
        read_u32 f v.0.off
        >>= (λ u. if 19 == u.0 then read_sections f u.1 (sections zero_toc) else failed)))
      at
    ∙ ap
        (λ r. r >>= (λ v.
          read_u32 f v.0.off
          >>= (λ u. if 19 == u.0 then read_sections f u.1 (sections zero_toc) else failed)))
        (read_simple_at file sz fits (toc_end body toc) pad s e (omega arith, omega arith))
    ∙ ap
        (λ n.
          read_u32 f n
          >>= (λ u. if 19 == u.0 then read_sections f u.1 (sections zero_toc) else failed))
        start
    ∙ ap (λ r. r >>= (λ u. if 19 == u.0 then read_sections f u.1 (sections zero_toc) else failed))
        (read_u32_at file sz fits body (toc_bytes ss ++ tail) 19 first (omega arith))
    ∙ read_sections_at file sz fits (body ++ put_u32 19) tail ss second stored

-- The table of contents at the end of a file that was written, up to 4 GiB with what is behind it, is read
-- back, if the sections are stored in the file.
pub read_toc-write_toc_section :
    (body pad : Bytes) (toc : IndexToc)
    → length (toc_file body toc ++ pad) < 2 ^ 32
    → All (IsStored (toc_file body toc ++ pad)) (sections toc)
    → read_toc (mmaped_file (toc_file body toc ++ pad) (length (toc_file body toc)))
      ≡ ok (sections toc)
unfolding toc_file
read_toc-write_toc_section body pad toc fits stored =
    let written = ap (λ w. w.sink) (write_toc_section-buffer body toc) in
    let whole =
      ap (λ xs. xs ++ pad) written
      ∙ append_assoc (toc_end body toc) (simple_bytes (toc_section body toc)) pad in
    let eight =
      ap length written ∙ length-append (toc_end body toc) (simple_bytes (toc_section body toc)) in
    ap (λ n. read_toc (mmaped_file (toc_file body toc ++ pad) n)) eight
    ∙ read_toc-toc_end body pad toc (toc_file body toc ++ pad) whole fits stored
