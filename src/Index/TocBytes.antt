-- ===== src/Index/TocBytes.antt =====
-- section.go and write.go: the bytes of sections and of the table of contents.
use zoekt_archived.Prelude.{◌≡◌, ap, sym, ◌∙◌, List, [], ◌∷◌, ◌++◌, Bytes, append_assoc, append-nil}
use zoekt_archived.Index.Words.{put_u32}
use zoekt_archived.Index.Writing.{buffer, writer_of, write-buffer}
use zoekt_archived.Index.Section.{SimpleSection, write_u32, write_simple, write_compound}
use zoekt_archived.Index.Toc.{
  Section, simple, compound, zero_section, zero_compound, write_section, write_sections,
}

abbrev pub simple_bytes : SimpleSection → Bytes
simple_bytes s = put_u32 s.off ++ put_u32 s.sz

abbrev pub section_bytes : Section → Bytes
section_bytes (simple s) = simple_bytes s
section_bytes (compound s) = simple_bytes s.data_section ++ simple_bytes s.index

unfoldable pub toc_bytes : List Section → Bytes
toc_bytes [] = []
toc_bytes (s ∷ ss) = section_bytes s ++ toc_bytes ss

pub write_simple-buffer :
    (out : Bytes) (s : SimpleSection)
    → write_simple buffer (writer_of out) s ≡ writer_of (out ++ simple_bytes s)
unfolding write_simple write_u32
write_simple-buffer out s =
    ap (λ w. write_u32 buffer w s.sz) (write-buffer out (put_u32 s.off))
    ∙ write-buffer (out ++ put_u32 s.off) (put_u32 s.sz)
    ∙ ap writer_of (append_assoc out (put_u32 s.off) (put_u32 s.sz))

pub write_section-buffer :
    (out : Bytes) (s : Section)
    → write_section buffer (writer_of out) s ≡ writer_of (out ++ section_bytes s)
unfolding write_section write_compound
write_section-buffer out (simple s) = write_simple-buffer out s
write_section-buffer out (compound s) =
    ap (λ w. write_simple buffer w s.index) (write_simple-buffer out s.data_section)
    ∙ write_simple-buffer (out ++ simple_bytes s.data_section) s.index
    ∙ ap writer_of (append_assoc out (simple_bytes s.data_section) (simple_bytes s.index))

pub write_sections-buffer :
    (out : Bytes) (ss : List Section)
    → write_sections buffer (writer_of out) ss ≡ writer_of (out ++ toc_bytes ss)
unfolding write_sections toc_bytes
write_sections-buffer out [] = ap writer_of (sym (append-nil out))
write_sections-buffer out (s ∷ ss) =
    ap (λ w. write_sections buffer w ss) (write_section-buffer out s)
    ∙ write_sections-buffer (out ++ section_bytes s) ss
    ∙ ap writer_of (append_assoc out (section_bytes s) (toc_bytes ss))

abbrev pub zero_of : Section → Section
zero_of (simple s) = simple zero_section
zero_of (compound s) = compound zero_compound
