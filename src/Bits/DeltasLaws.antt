-- ===== src/Bits/DeltasLaws.antt =====
-- bits.go: what is written as deltas is read back.
use zoekt_archived.Prelude.{
  ℕ, zero, suc, ◌^◌, ◌≤◌, ◌<◌, ◌≡◌, refl, ap, ◌∙◌, List, [], ◌∷◌, ◌++◌, some, Bytes, length,
  length-append, All, drop, arith,
}
use zoekt_archived.Bits.Deltas.{
  Varint, IsVarint, DocumentSection, delta_of, offset_of, prepend, with_value, with_ints,
  put_deltas, to_sized_deltas, get_deltas, from_deltas, from_sized_deltas, flatten_sections,
  pair_sections, marshal_doc_sections, unmarshal_doc_sections,
}

pub drop-append : {A : Type 0} (xs ys : List A) → drop (length xs) (xs ++ ys) ≡ ys
drop-append [] ys = refl
drop-append (x ∷ xs) ys = drop-append xs ys

-- The wrap-around of the difference is undone by that of the sum, in any order of the two.
pub offset-delta : (last p : ℕ) → last < 2 ^ 32 → p < 2 ^ 32 → offset_of last (delta_of last p) ≡ p
offset-delta last p l q = omega arith

abbrev pub IsU32 : ℕ → Type 0
IsU32 p = p < 2 ^ 32

-- A round of the loop on a string that starts with a value.
module _ (v : Varint) (law : IsVarint v) where
  get_step_lem :
      (fuel last n : ℕ) (front rest : Bytes)
      → 0 < length front
      → v.uvarint (front ++ rest) ≡ some (n, length front)
      → get_deltas v (suc fuel) last (front ++ rest)
        ≡ prepend (offset_of last n) (get_deltas v fuel (offset_of last n) rest)
  unfolding get_deltas
  get_step_lem fuel last n [] rest pos e = absurd (omega arith)
  get_step_lem fuel last n (b ∷ front) rest pos e =
      let next = λ (delta : ℕ). λ (m : ℕ).
        prepend (offset_of last delta)
          (get_deltas v fuel (offset_of last delta) (drop m (b ∷ front ++ rest))) in
      let read : get_deltas v (suc fuel) last (b ∷ front ++ rest) ≡ next n (length (b ∷ front)) =
        ap (with_value next) e in
      read
      ∙ ap (λ ys. prepend (offset_of last n) (get_deltas v fuel (offset_of last n) ys))
          (drop-append (b ∷ front) rest)

  get_deltas-put :
      (fuel last : ℕ) (ps : List ℕ)
      → last < 2 ^ 32
      → All IsU32 ps
      → length (put_deltas v last ps) ≤ fuel
      → get_deltas v fuel last (put_deltas v last ps) ≡ some ps
  unfolding get_deltas put_deltas
  get_deltas-put fuel last [] l all enough = refl
  get_deltas-put zero last (p ∷ ps) l (u, all) enough =
      let sum = length-append (v.put_uvarint (delta_of last p)) (put_deltas v p ps) in
      absurd (omega (arith, enough, sum, law.put_size (delta_of last p)))
  get_deltas-put (suc n) last (p ∷ ps) l (u, all) enough =
      let front = v.put_uvarint (delta_of last p) in
      let rest = put_deltas v p ps in
      let pos = law.put_size (delta_of last p) in
      let sum = length-append front rest in
      get_step_lem n last (delta_of last p) front rest pos
        (law.uvarint-put (delta_of last p) rest (omega arith))
      ∙ ap (λ o. prepend o (get_deltas v n o rest)) (offset-delta last p l u)
      ∙ ap (prepend p) (get_deltas-put n p ps u all (omega (arith, enough, sum, pos)))

  pub from_deltas-put_deltas :
      (ps : List ℕ) → All IsU32 ps → from_deltas v (put_deltas v 0 ps) ≡ some ps
  unfolding from_deltas
  from_deltas-put_deltas ps all =
      get_deltas-put (length (put_deltas v 0 ps)) 0 ps (omega arith) all (omega arith)

  -- fromSizedDeltas reads back what toSizedDeltas wrote.
  pub from_sized_deltas-to_sized_deltas :
      (ps : List ℕ)
      → All IsU32 ps
      → length ps < 2 ^ 56
      → from_sized_deltas v (to_sized_deltas v ps) ≡ some ps
  unfolding from_sized_deltas to_sized_deltas from_deltas
  from_sized_deltas-to_sized_deltas ps all short =
      let front = v.put_uvarint (length ps) in
      ap (with_value (λ sz m. from_deltas v (drop m (front ++ put_deltas v 0 ps))))
        (law.uvarint-put (length ps) (put_deltas v 0 ps) (omega (arith, short)))
      ∙ ap (from_deltas v) (drop-append front (put_deltas v 0 ps))
      ∙ get_deltas-put (length (put_deltas v 0 ps)) 0 ps (omega arith) all (omega arith)

pair-flatten : (secs : List DocumentSection) → pair_sections (flatten_sections secs) ≡ some secs
unfolding pair_sections flatten_sections
pair-flatten [] = refl
pair-flatten (s ∷ secs) = ap (prepend s) (pair-flatten secs)

abbrev pub IsU32Section : DocumentSection → Type 0
IsU32Section s = (s.start < 2 ^ 32) × (s.end < 2 ^ 32)

flatten-IsU32 :
    (secs : List DocumentSection) → All IsU32Section secs → All IsU32 (flatten_sections secs)
unfolding flatten_sections
flatten-IsU32 [] all = tt
flatten-IsU32 (s ∷ secs) ((a, b), all) = (a, (b, flatten-IsU32 secs all))

module _ (v : Varint) (law : IsVarint v) where
  -- unmarshalDocSections reads back what marshalDocSections wrote.
  pub unmarshal_doc_sections-marshal :
      (secs : List DocumentSection)
      → All IsU32Section secs
      → length (flatten_sections secs) < 2 ^ 56
      → unmarshal_doc_sections v (marshal_doc_sections v secs) ≡ some secs
  unfolding unmarshal_doc_sections marshal_doc_sections
  unmarshal_doc_sections-marshal secs all short =
      ap (with_ints pair_sections) (
        from_sized_deltas-to_sized_deltas v law (flatten_sections secs) (flatten-IsU32 secs all)
          short)
      ∙ pair-flatten secs
