-- ===== src/Tests/Files.antt =====
-- section.go, toc.go, read.go and write.go on a small file.
use zoekt_archived.Prelude.{◌^◌, ◌<◌, ◌≡◌, refl, List, [], ◌∷◌, ◌++◌, Bytes, length, arith}
use zoekt_archived.Index.File.{ok, panicked, mmaped_file, mmaped_read}
use zoekt_archived.Index.Section.{write_strings, read_section_u32}
use zoekt_archived.Index.Toc.{IndexToc, sections, zero_toc, read_toc}
use zoekt_archived.Index.Writing.{section_of, strings_at}
use zoekt_archived.Index.Documents.{items_of, read_contents}
use zoekt_archived.Index.DocumentLaws.{written, read_contents-write_strings}
use zoekt_archived.Index.TocRoundTrip.{toc_file, read_toc-write_toc_section}
use zoekt_archived.Index.Failures.{mmaped_read_lem}
use zoekt_archived.Index.Words.{get_u32}

abbrev contents : List Bytes
contents = (97 ∷ 10 ∷ 98 ∷ 10 ∷ []) ∷ [] ∷ (99 ∷ []) ∷ []

read_contents-write_strings_example :
    (read_section_u32
        (mmaped_file ((written (1 ∷ []) contents).0.sink ++ 7 ∷ []) 20)
        (written (1 ∷ []) contents).1.index
      ≡ ok (written (1 ∷ []) contents).1.offsets)
    × (read_contents
          (mmaped_file ((written (1 ∷ []) contents).0.sink ++ 7 ∷ []) 20)
          (items_of (written (1 ∷ []) contents).1)
          2
        ≡ ok (99 ∷ []))
unfolding write_strings
read_contents-write_strings_example =
    read_contents-write_strings (1 ∷ []) contents (7 ∷ []) 20 2 (omega arith) (omega arith)

-- A file with one document, whose section is in the table of contents.
abbrev body : Bytes
unfolding strings_at
body = strings_at [] ((97 ∷ []) ∷ [])

abbrev toc : IndexToc
unfolding section_of
toc = record zero_toc { file_contents = section_of [] ((97 ∷ []) ∷ []) }

read_toc-write_toc_section_example :
    read_toc (mmaped_file (toc_file body toc ++ []) (length (toc_file body toc)))
    ≡ ok (sections toc)
unfolding toc_file read_section_u32 sections body toc mmaped_read get_u32
read_toc-write_toc_section_example =
    let z : (0 < 2 ^ 32) × (0 < 2 ^ 32) = (omega arith, omega arith) in
    read_toc-write_toc_section body [] toc (omega arith) (
      z,
      (
        z,
        (
          ((omega arith, omega arith), ((omega arith, omega arith), refl)),
          (
            (z, (z, refl)),
            (
              (z, (z, refl)),
              (
                (z, (z, refl)),
                (
                  z,
                  (
                    (z, (z, refl)),
                    (z, ((z, (z, refl)), (z, (z, (z, (z, (z, (z, (z, (z, (z, tt))))))))))),
                  ),
                ),
              ),
            ),
          ),
        ),
      ),
    )

mmaped_read_lem_example : mmaped_read (1 ∷ 2 ∷ 3 ∷ []) 2 4294967295 ≡ panicked
mmaped_read_lem_example =
    mmaped_read_lem (1 ∷ 2 ∷ 3 ∷ []) 2 4294967295 (omega arith) (omega arith) (omega arith)

-- An offset and a size whose sum wraps around pass the test of Read, and the slice panics.
wrapping_read : mmaped_read (1 ∷ 2 ∷ 3 ∷ []) 2 4294967295 ≡ panicked
unfolding mmaped_read
wrapping_read = refl
