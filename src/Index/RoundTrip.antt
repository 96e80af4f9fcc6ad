-- ===== src/Index/RoundTrip.antt =====
-- read.go: what writeStrings wrote is read back, the offsets and each of the strings.
use zoekt_archived.Prelude.{
  ℕ, zero, suc, ◌+◌, ◌-◌, ◌^◌, ◌≤◌, ◌<◌, ◌≡◌, refl, ap, sym, ◌∙◌, true, List, [], ◌∷◌, ◌++◌, Bytes,
  length, length-append, get_or, All, if◌then◌else◌, ◌%◌, ◌==◌, append_assoc, arith,
}
use zoekt_archived.Index.File.{mmaped_file, mmaped_read, ok, failed, ◌>>=◌}
use zoekt_archived.Index.Slices.{mmaped_read-append}
use zoekt_archived.Index.Writing.{flat, starts, strings_at, section_of}
use zoekt_archived.Index.WordLaws.{flat_words, length-flat_words, words_loop-flat_words}
use zoekt_archived.Bits.DeltasLaws.{IsU32}
use zoekt_archived.Index.Section.{
  read_section_blob, read_section_u32, relative_offsets, relative_index, read_item, words_loop,
}

-- The offsets of the items from the first, and the end of the last.
index_of : ℕ → ℕ → List Bytes → ℕ → List ℕ
index_of first at items end = relative_offsets first (starts at items) ++ end ∷ []

first_of_index :
    (first at end : ℕ) (items : List Bytes)
    → first ≤ at
    → at < 2 ^ 32
    → end ≡ at + length (flat items) - first
    → get_or (index_of first at items end) 0 0 ≡ at - first
unfolding index_of relative_offsets starts flat
first_of_index first at end [] le lt p = omega arith
first_of_index first at end (item ∷ items) le lt p = omega arith

read_item_at :
    (before after : Bytes) (items : List Bytes) (first end size i : ℕ)
    → length (before ++ (flat items ++ after)) < 2 ^ 32
    → first ≤ length before
    → end ≡ length before + length (flat items) - first
    → i < length items
    → read_item
        (mmaped_file (before ++ (flat items ++ after)) size)
        first
        (index_of first (length before) items end)
        i
      ≡ ok (get_or items i [])
unfolding index_of relative_offsets starts flat read_item read_section_blob
read_item_at before after [] first end size i fits le p lt = absurd (omega arith)
read_item_at before after (item ∷ items) first end size zero fits le p lt =
    let a = length-append before ((item ++ flat items) ++ after) in
    let b = length-append (item ++ flat items) after in
    let c = length-append item (flat items) in
    let next =
      first_of_index first (length before + length item) end items (omega (arith, a, b, c))
        (omega (arith, a, b, c)) (omega (arith, c)) in
    let rel = (length before % 2 ^ 32 + (2 ^ 32 - first)) % 2 ^ 32 in
    let off = (first + rel) % 2 ^ 32 in
    let sz =
      (get_or (index_of first (length before + length item) items end) 0 0 + (2 ^ 32 - rel))
      % 2 ^ 32 in
    let whole = ap (λ xs. before ++ xs) (append_assoc item (flat items) after) in
    let same = ap length whole in
    ap (λ xs. mmaped_read xs off sz) whole
    ∙ mmaped_read-append before item (flat items ++ after) off sz (omega (arith, same))
        (omega (arith, a, b, c)) (omega (arith, a, b, c, next))
read_item_at before after (item ∷ items) first end size (suc i) fits le p lt =
    let whole =
      ap (λ xs. before ++ xs) (append_assoc item (flat items) after)
      ∙ sym (append_assoc before item (flat items ++ after)) in
    let same = ap length whole in
    let sum = length-append before item in
    let c = length-append item (flat items) in
    let tail =
      read_item_at (before ++ item) after items first end size i (omega (arith, same))
        (omega (arith, sum)) (omega (arith, sum, c)) (omega arith) in
    ap
      (λ xs.
        read_item (mmaped_file xs size) first
          (index_of first (length before + length item) items end) i)
      whole
    ∙ ap
        (λ n.
          read_item (mmaped_file ((before ++ item) ++ (flat items ++ after)) size) first
            (index_of first n items end) i)
        (sym sum)
    ∙ tail

starts-IsU32 : (at : ℕ) (items : List Bytes) → All IsU32 (starts at items)
unfolding starts
starts-IsU32 at [] = tt
starts-IsU32 at (item ∷ items) = (omega arith, starts-IsU32 (at + length item) items)

-- Whatever follows in the file, the index of a section that was written is the list of its offsets.
pub read_section_u32-section_of :
    (out : Bytes) (items : List Bytes) (after : Bytes) (size : ℕ)
    → length (strings_at out items ++ after) < 2 ^ 32
    → read_section_u32
        (mmaped_file (strings_at out items ++ after) size)
        (section_of out items).index
      ≡ ok (starts (length out) items)
unfolding read_section_u32 read_section_blob strings_at section_of
read_section_u32-section_of out items after size fits =
    let offsets = starts (length out) items in
    let body = out ++ flat items in
    let whole = append_assoc body (flat_words offsets) after in
    let same = ap length whole in
    let words = length-flat_words offsets in
    let n = length (flat_words offsets) in
    let blob =
      ap (λ xs. mmaped_read xs (length body) n) whole
      ∙ mmaped_read-append body (flat_words offsets) after (length body) n (omega (arith, same))
          refl refl in
    let divides : (n % 4 == 0) ≡ true = ground (arith, words) in
    ap
      (λ b.
        if b
        then mmaped_read (strings_at out items ++ after) (length body) n
          >>= (λ xs. words_loop (length xs) xs)
        else failed)
      divides
    ∙ ap (λ r. r >>= (λ xs. words_loop (length xs) xs)) blob
    ∙ words_loop-flat_words n offsets (omega arith) (starts-IsU32 (length out) items)

-- Whatever follows in the file, reading item i of a section that was written, by the relative index of the
-- section, gives string i.
pub read_item-section_of :
    (out : Bytes) (items : List Bytes) (after : Bytes) (size i : ℕ)
    → length (strings_at out items ++ after) < 2 ^ 32
    → i < length items
    → read_item
        (mmaped_file (strings_at out items ++ after) size)
        (length out)
        (relative_index (section_of out items))
        i
      ≡ ok (get_or items i [])
unfolding strings_at section_of relative_index starts index_of
read_item-section_of out [] after size i fits lt = absurd (omega arith)
read_item-section_of out (item ∷ items) after size i fits lt =
    let all = item ∷ items in
    let words = flat_words (starts (length out) all) in
    let whole =
      append_assoc (out ++ flat all) words after ∙ append_assoc out (flat all) (words ++ after) in
    let same = ap length whole in
    let a = length-append out (flat all ++ (words ++ after)) in
    let first : length out % 2 ^ 32 ≡ length out = omega (arith, a, same) in
    ap (λ xs. read_item (mmaped_file xs size) (length out) (relative_index (section_of out all)) i)
      whole
    ∙ ap
        (λ n.
          read_item (mmaped_file (out ++ (flat all ++ (words ++ after))) size) (length out)
            (relative_offsets n (starts (length out) all) ++ length (flat all) ∷ []) i)
        first
    ∙ read_item_at out (words ++ after) all (length out) (length (flat all)) size i
        (omega (arith, same)) (omega arith) (omega arith) lt
