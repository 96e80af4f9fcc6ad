-- ===== src/Tests/Offsets.antt =====
-- findOffset and splitNGrams on texts with runes of several bytes.
use zoekt_archived.Prelude.{ℕ, zero, suc, ◌≡◌, refl, false, [], ◌∷◌, Bytes, take, drop}
use zoekt_archived.Index.File.{ok}
use zoekt_archived.Bits.Ngrams.{split_ngrams, bytes_to_ngram, ngram_to_bytes, is_ascii}
use zoekt_archived.Bits.NgramLaws.{places, windows, split_ngrams-windows}
use zoekt_archived.Provider.Offset.{Offsets, find_offset}

-- Two names, of runes of one, two, four and one bytes.
abbrev names : Bytes
names = 97 ∷ 195 ∷ 169 ∷ 240 ∷ 159 ∷ 152 ∷ 128 ∷ 98 ∷ []

split_ngrams-windows_example : split_ngrams names ≡ windows 2 (places 8 names 0)
split_ngrams-windows_example = split_ngrams-windows names

packing : ngram_to_bytes (bytes_to_ngram 97 98 99) ≡ 97 ∷ 98 ∷ 99 ∷ []
unfolding ngram_to_bytes bytes_to_ngram
packing = refl

not_ascii : is_ascii names ≡ false
unfolding is_ascii
not_ascii = refl

-- A text of runes of four bytes each.
unfoldable grins : ℕ → Bytes
grins zero = []
grins (suc n) = 240 ∷ 159 ∷ 152 ∷ 128 ∷ grins n

abbrev grin_offsets : Offsets
grin_offsets = record { sample = 0 ∷ []; rune_ends = 95 ∷ []; starts = 0 ∷ 380 ∷ [] }

-- The slice of three bytes for each rune ends before rune 90, and its offset is 300 in place of 360.
short_slice :
    (find_offset false grin_offsets (λ off. ok (drop off (grins 95))) 0 90 ≡ ok 360)
    × (find_offset false grin_offsets (λ off. ok (take 300 (drop off (grins 95)))) 0 90 ≡ ok 300)
unfolding find_offset grins
short_slice = (refl, refl)
