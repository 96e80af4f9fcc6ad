-- ===== src/Index/Writing.antt =====
-- section.go and write.go: what the operations of a writer leave in a buffer in memory.
use zoekt_archived.Prelude.{
  ℕ, ◌+◌, ◌-◌, ◌%◌, ◌^◌, ◌<◌, ◌≡◌, ap, sym, ◌∙◌, false, List, [], ◌∷◌, ◌++◌, Bytes, length,
  length-append, append_assoc, append-nil, arith,
}
use zoekt_archived.Index.Words.{put_u32}
use zoekt_archived.Index.WordLaws.{flat_words}
use zoekt_archived.Index.Section.{
  Sink, Writer, CompoundSection, write, write_u32, write_words, add_items, write_strings,
  start_simple, end_simple, start_compound, end_compound, add_item,
}

-- A bytes.Buffer, whose Write always writes the whole slice, and a writer on it that saw no error.
abbrev pub buffer : Sink Bytes
buffer = record { sink_write = λ out b. (out ++ b, (length b, false)) }

abbrev pub writer_of : Bytes → Writer Bytes
writer_of out = record { has_failed = false; sink = out; off = length out % 2 ^ 32 }

pub write-buffer : (out b : Bytes) → write buffer (writer_of out) b ≡ writer_of (out ++ b)
unfolding write
write-buffer out b =
    let size : (length out % 2 ^ 32 + length b % 2 ^ 32) % 2 ^ 32 ≡ length (out ++ b) % 2 ^ 32 =
      let sum = length-append out b in omega arith in
    ap (λ n. record { has_failed = false; sink = out ++ b; off = n }) size

pub write_words-buffer :
    (out : Bytes) (ns : List ℕ)
    → write_words buffer (writer_of out) ns ≡ writer_of (out ++ flat_words ns)
unfolding write_words write_u32 flat_words
write_words-buffer out [] = ap writer_of (sym (append-nil out))
write_words-buffer out (n ∷ ns) =
    ap (λ w. write_words buffer w ns) (write-buffer out (put_u32 n))
    ∙ write_words-buffer (out ++ put_u32 n) ns
    ∙ ap writer_of (append_assoc out (put_u32 n) (flat_words ns))

-- The strings behind one another, and the offsets at which they start.
unfoldable pub flat : List Bytes → Bytes
flat [] = []
flat (item ∷ items) = item ++ flat items

unfoldable pub starts : ℕ → List Bytes → List ℕ
starts at [] = []
starts at (item ∷ items) = at % 2 ^ 32 ∷ starts (at + length item) items

pub add_items-buffer :
    (out : Bytes) (s : CompoundSection) (items : List Bytes)
    → add_items buffer (writer_of out) s items ≡ (
      writer_of (out ++ flat items),
      record s { offsets = s.offsets ++ starts (length out) items },
    )
unfolding add_items add_item flat starts
add_items-buffer out s [] =
    ap (λ o. (writer_of o, s)) (sym (append-nil out))
    ∙ ap (λ os. (writer_of (out ++ []), record s { offsets = os })) (sym (append-nil s.offsets))
add_items-buffer out s (item ∷ items) =
    let s' : CompoundSection = record s { offsets = s.offsets ++ (length out % 2 ^ 32) ∷ [] } in
    ap (λ w. add_items buffer w s' items) (write-buffer out item)
    ∙ add_items-buffer (out ++ item) s' items
    ∙ ap
        (λ o.
          (writer_of o, record s { offsets = s'.offsets ++ starts (length (out ++ item)) items }))
        (append_assoc out item (flat items))
    ∙ ap
        (λ n. (
          writer_of (out ++ (item ++ flat items)),
          record s { offsets = s'.offsets ++ starts n items },
        ))
        (length-append out item)
    ∙ ap (λ os. (writer_of (out ++ (item ++ flat items)), record s { offsets = os }))
        (append_assoc s.offsets (length out % 2 ^ 32 ∷ [])
          (starts (length out + length item) items))

abbrev pub no_section : CompoundSection
no_section = record {
  data_section = record { off = 0; sz = 0 };
  offsets = [];
  index = record { off = 0; sz = 0 };
}

-- What stands in the file, and the section that describes it.
unfoldable pub strings_at : Bytes → List Bytes → Bytes
unfolding flat flat_words starts
strings_at out items = (out ++ flat items) ++ flat_words (starts (length out) items)

unfoldable pub section_of : Bytes → List Bytes → CompoundSection
unfolding flat flat_words starts
section_of out items = record {
  data_section = record { off = length out; sz = length (flat items) };
  offsets = starts (length out) items;
  index = record {
    off = length (out ++ flat items);
    sz = length (flat_words (starts (length out) items));
  };
}

-- The bytes written, whatever their number.
pub write_strings_sink :
    (out : Bytes) (items : List Bytes)
    → (write_strings buffer (writer_of out) no_section items).0 ≡ writer_of (strings_at out items)
unfolding write_strings strings_at start_compound end_compound
write_strings_sink out items =
    ap (λ r. (end_compound buffer r.0 r.1).0)
      (add_items-buffer out (start_compound buffer (writer_of out) no_section) items)
    ∙ write_words-buffer (out ++ flat items) (starts (length out) items)

-- Writing strings to a buffer, if it then holds less than 4 GiB, appends the strings and then the offsets at
-- which they start, and the section holds the places and sizes of both parts.
pub write_strings-buffer :
    (out : Bytes) (items : List Bytes)
    → length (strings_at out items) < 2 ^ 32
    → write_strings buffer (writer_of out) no_section items
      ≡ (writer_of (strings_at out items), section_of out items)
unfolding write_strings strings_at section_of start_compound end_compound start_simple end_simple
write_strings-buffer out items lt =
    let begun : CompoundSection = start_compound buffer (writer_of out) no_section in
    let offsets = starts (length out) items in
    let body = out ++ flat items in
    let section : ℕ → ℕ → ℕ → ℕ → CompoundSection = λ a n b m. record {
      data_section = record { off = a; sz = n };
      offsets = offsets;
      index = record { off = b; sz = m };
    } in
    let a = length-append out (flat items) in
    let b = length-append body (flat_words offsets) in
    let data_off : length out % 2 ^ 32 ≡ length out = omega (arith, a, b) in
    let data_end : length body % 2 ^ 32 ≡ length body = omega (arith, a, b) in
    let data_size : (length body % 2 ^ 32 + (2 ^ 32 - length out % 2 ^ 32)) % 2 ^ 32
        ≡ length (flat items) =
      omega (arith, a, b) in
    let index_size : (length (body ++ flat_words offsets) % 2 ^ 32
            + (2 ^ 32 - length body % 2 ^ 32))
          % 2 ^ 32
        ≡ length (flat_words offsets) =
      omega (arith, a, b) in
    ap (λ r. end_compound buffer r.0 r.1) (add_items-buffer out begun items)
    ∙ ap
        (λ w. (
          w,
          section (length out % 2 ^ 32)
              ((length body % 2 ^ 32 + (2 ^ 32 - length out % 2 ^ 32)) % 2 ^ 32)
              (length body % 2 ^ 32) ((w.off + (2 ^ 32 - length body % 2 ^ 32)) % 2 ^ 32),
        ))
        (write_words-buffer body offsets)
    ∙ (λ i. (
      writer_of (body ++ flat_words offsets),
      section (data_off i) (data_size i) (data_end i) (index_size i),
    ))
