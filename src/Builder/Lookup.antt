-- ===== src/Builder/Lookup.antt =====
-- indexbuilder.go and contentprovider.go: findOffset reads the tables that newSearchableString leaves.
use zoekt_archived.Prelude.{
  ℕ, ◌+◌, ◌*◌, ◌/◌, ◌≤◌, Bool, ◌++◌, Bytes, length, drop, take, if◌then◌else◌,
}
use zoekt_archived.Provider.Offset.{rune_offset_frequency}
use zoekt_archived.Provider.OffsetLaws.{bytes_of_runes}

-- data: the names from the offset on, or 3 * runeOffsetFrequency bytes of the file, where `after` follows the
-- contents.
unfoldable pub data_at : Bool → Bytes → Bytes → ℕ → Bytes
data_at filename text after off =
    if filename then drop off text else take (3 * rune_offset_frequency) (drop off (text ++ after))

-- The runes from the sampled one to rune n take at most 297 bytes, which is 99 runes of three bytes, and three
-- bytes of the text, or more, follow.
unfoldable pub InSlice : ℕ → Bytes → Type 0
unfolding bytes_of_runes
InSlice n text =
    (bytes_of_runes n text
      ≤ bytes_of_runes (n / rune_offset_frequency * rune_offset_frequency) text + 297)
    × (bytes_of_runes n text + 3 ≤ length text)
