-- ===== src/Bits/Deltas.antt =====
-- bits.go: toSizedDeltas, fromSizedDeltas, fromDeltas, marshalDocSections and unmarshalDocSections.
use zoekt_archived.Prelude.{
  ℕ, zero, suc, ◌+◌, ◌-◌, ◌%◌, ◌^◌, ◌<◌, ◌≡◌, List, [], ◌∷◌, ◌++◌, Option, none, some, Bytes,
  length, drop,
}

-- encoding/binary: the bytes that PutUvarint writes, and the value and size that Uvarint reads, where
-- `none` stands for a negative size (a value of more than 64 bits), on which `data[m:]` panics.
pub record Varint : Type 0 where
  pub put_uvarint : ℕ → Bytes
  pub uvarint : Bytes → Option (ℕ × ℕ)

-- What the documentation of package encoding/binary says of them.
pub record IsVarint (v : Varint) : Type 0 where
  pub put_size : (n : ℕ) → 0 < length (v.put_uvarint n)
  pub uvarint-put :
      (n : ℕ) (rest : Bytes)
      → n < 2 ^ 64
      → v.uvarint (v.put_uvarint n ++ rest) ≡ some (n, length (v.put_uvarint n))

-- p - last and last + uint32(delta), on uint32.
abbrev pub delta_of : ℕ → ℕ → ℕ
delta_of last p = (p + (2 ^ 32 - last)) % 2 ^ 32

abbrev pub offset_of : ℕ → ℕ → ℕ
offset_of last delta = (last + delta % 2 ^ 32) % 2 ^ 32

-- DocumentSection
pub record DocumentSection : Type 0 where
  pub start : ℕ
  pub end : ℕ

-- Option.map of the library, at the cons of a list.
abbrev pub prepend : {A : Type 0} → A → Option (List A) → Option (List A)
prepend x none = none
prepend x (some xs) = some (x ∷ xs)

-- What follows a call of Uvarint, with the value and the size that it returns.
abbrev pub with_value : {A : Type 0} → (ℕ → ℕ → Option A) → Option (ℕ × ℕ) → Option A
with_value f none = none
with_value f (some (x, m)) = f x m

abbrev pub with_ints : {A : Type 0} → (List ℕ → Option A) → Option (List ℕ) → Option A
with_ints f none = none
with_ints f (some ints) = f ints

module _ (v : Varint) where
  -- The loop of toSizedDeltas.
  unfoldable pub put_deltas : ℕ → List ℕ → Bytes
  put_deltas last [] = []
  put_deltas last (p ∷ ps) = v.put_uvarint (delta_of last p) ++ put_deltas p ps

  unfoldable pub to_sized_deltas : List ℕ → Bytes
  unfolding put_deltas
  to_sized_deltas offsets = v.put_uvarint (length offsets) ++ put_deltas 0 offsets

  -- The loop of fromSizedDeltas and of fromDeltas. `none` is a panic, or a loop without end on a value
  -- that is cut off (a size of 0); each other round takes a byte, so the length is enough fuel.
  unfoldable pub get_deltas : ℕ → ℕ → Bytes → Option (List ℕ)
  get_deltas fuel last [] = some []
  get_deltas zero last (b ∷ bs) = none
  get_deltas (suc fuel) last (b ∷ bs) =
      with_value
        (λ delta m.
          prepend (offset_of last delta) (get_deltas fuel (offset_of last delta) (drop m (b ∷ bs))))
        (v.uvarint (b ∷ bs))

  unfoldable pub from_deltas : Bytes → Option (List ℕ)
  unfolding get_deltas
  from_deltas data' = get_deltas (length data') 0 data'

  -- The size is read for the capacity of the result only.
  unfoldable pub from_sized_deltas : Bytes → Option (List ℕ)
  unfolding from_deltas
  from_sized_deltas data' = with_value (λ sz m. from_deltas (drop m data')) (v.uvarint data')

-- The loops of marshalDocSections and unmarshalDocSections; `ints[1]` panics on an odd length.
unfoldable pub flatten_sections : List DocumentSection → List ℕ
flatten_sections [] = []
flatten_sections (s ∷ secs) = s.start ∷ s.end ∷ flatten_sections secs

unfoldable pub pair_sections : List ℕ → Option (List DocumentSection)
pair_sections [] = some []
pair_sections (a ∷ []) = none
pair_sections (a ∷ b ∷ ints) = prepend (record { start = a; end = b }) (pair_sections ints)

module _ (v : Varint) where
  unfoldable pub marshal_doc_sections : List DocumentSection → Bytes
  unfolding to_sized_deltas flatten_sections
  marshal_doc_sections secs = to_sized_deltas v (flatten_sections secs)

  unfoldable pub unmarshal_doc_sections : Bytes → Option (List DocumentSection)
  unfolding from_sized_deltas pair_sections
  unmarshal_doc_sections bytes = with_ints pair_sections (from_sized_deltas v bytes)
