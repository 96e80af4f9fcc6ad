-- ===== src/Provider/Offset.antt =====
-- contentprovider.go: findOffset, from a rune offset in a document to a byte offset.
use zoekt_archived.Prelude.{
  ℕ, zero, suc, ◌+◌, ◌-◌, ◌/◌, ◌%◌, ◌^◌, Bool, List, Bytes, length, drop, get_or, ltb, ◌==◌,
  if◌then◌else◌,
}
use zoekt_archived.Bits.Utf8.{decode_rune}
use zoekt_archived.Index.File.{Access, ok, panicked, ◌>>=◌}

-- runeOffsetFrequency
abbrev pub rune_offset_frequency : ℕ
rune_offset_frequency = 100

-- The fields of indexData for contents or for names: runeOffsets, fileEndRunes and boundaries, or
-- fileNameRuneOffsets, fileNameEndRunes and fileNameIndex.
pub record Offsets : Type 0 where
  pub sample : List ℕ
  pub rune_ends : List ℕ
  pub starts : List ℕ

-- An element of a slice.
unfoldable pub element : List ℕ → ℕ → Access ℕ
element xs i = if ltb i (length xs) then ok (get_or xs i 0) else panicked

-- The loop that skips runes.
unfoldable pub skip_loop : ℕ → Bytes → ℕ → ℕ
unfolding decode_rune
skip_loop zero data' byte_off = byte_off
skip_loop (suc left) data' byte_off =
    let sz = (decode_rune data').1 in skip_loop left (drop sz data') ((byte_off + sz) % 2 ^ 32)

-- `read` is what follows a byte offset: fileNameContent[byteOff:], or readContentSlice of
-- 3 * runeOffsetFrequency bytes. (On a read error the source sets p.err and returns 0; here that is the error.)
unfoldable pub find_offset : Bool → Offsets → (ℕ → Access Bytes) → ℕ → ℕ → Access ℕ
unfolding element skip_loop
find_offset plain_ascii t read idx r =
    let before = if idx == 0 then ok 0 else element t.rune_ends (idx - 1) in
    let found = (do
      start ← element t.starts idx
      runes ← before
      byte_off ← element t.sample ((r + runes) % 2 ^ 32 / rune_offset_frequency)
      data' ← read byte_off
      ok (
          (skip_loop ((r + runes) % 2 ^ 32 % rune_offset_frequency) data' byte_off
            + (2 ^ 32 - start))
          % 2 ^ 32)) in
    if plain_ascii then ok r else found
