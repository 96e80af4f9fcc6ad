-- ===== src/Hits/Compressed.antt =====
-- hititer.go: a compressedPostingIterator over deltas, compared to the list that they encode.
use mathlib.Core.Path.{subst}
use zoekt_archived.Prelude.{
  ℕ, zero, suc, ◌%◌, ◌^◌, ◌≤◌, ◌<◌, ◌≡◌, refl, ap, ◌∙◌, ◌⊎◌, inl, inr, List, [], ◌∷◌, ◌++◌, Option,
  some, Bytes, length, length-append, drop, leb, ◌==◌, if◌then◌else◌, arith, All, Bool-cases,
}
use zoekt_archived.MatchTree.{max_u32}
use zoekt_archived.Bits.Deltas.{Varint, IsVarint, delta_of, offset_of, with_value, put_deltas}
use zoekt_archived.Bits.DeltasLaws.{drop-append, offset-delta, IsU32}
use zoekt_archived.Hits.{
  CompressedPosting, new_compressed, next_loop, next_compressed, skip_postings,
}

module _ (v : Varint) where
  -- The iterator that stands at the first of the postings, maxUInt32 if there are none.
  unfoldable pub posting_of : List ℕ → CompressedPosting
  posting_of [] = record { blob = []; first_hit = max_u32 }
  posting_of (p ∷ ps) = record { blob = put_deltas v p ps; first_hit = p }

-- What is left past the limit, but the last posting stays if it is reached by skipping.
unfoldable pub skip_to : ℕ → ℕ → List ℕ → List ℕ
skip_to limit p [] = p ∷ []
skip_to limit p (q ∷ ps) = let rest = skip_to limit q ps in if leb p limit then rest else p ∷ q ∷ ps

unfoldable pub skip_compressed : ℕ → List ℕ → List ℕ
skip_compressed limit [] = []
skip_compressed limit (p ∷ []) = if leb p limit then [] else p ∷ []
skip_compressed limit (p ∷ q ∷ ps) = if limit == max_u32 then [] else skip_to limit p (q ∷ ps)

module _ (v : Varint) (law : IsVarint v) where
  next_step_lem :
      (fuel limit p n : ℕ) (front rest : Bytes)
      → 0 < length front
      → v.uvarint (front ++ rest) ≡ some (n, length front)
      → next_loop v (suc fuel) limit p (front ++ rest) ≡ (
          if leb p limit
          then next_loop v fuel limit (offset_of p n) rest
          else some (record { blob = front ++ rest; first_hit = p }))
  unfolding next_loop
  next_step_lem fuel limit p n [] rest pos e = absurd (omega arith)
  next_step_lem fuel limit p n (b ∷ front) rest pos e =
      let next = λ (delta : ℕ).
        λ (m : ℕ). next_loop v fuel limit (offset_of p delta) (drop m (b ∷ front ++ rest)) in
      let other : Option CompressedPosting =
        some (record { blob = b ∷ front ++ rest; first_hit = p }) in
      ap (λ r. if leb p limit then r else other) (ap (with_value next) e)
      ∙ ap (λ ys. if leb p limit then next_loop v fuel limit (offset_of p n) ys else other)
          (drop-append (b ∷ front) rest)

  branch_lem :
      {next : Option CompressedPosting} (p q limit : ℕ) (ps : List ℕ)
      → next ≡ some (posting_of v (skip_to limit q ps))
      → (if leb p limit then next else some (posting_of v (p ∷ q ∷ ps)))
        ≡ some (posting_of v (skip_to limit p (q ∷ ps)))
  unfolding skip_to
  branch_lem p q limit ps later = ground arith

  next_loop-skip_to :
      (fuel limit p : ℕ) (ps : List ℕ)
      → p < 2 ^ 32
      → All IsU32 ps
      → length (put_deltas v p ps) ≤ fuel
      → next_loop v fuel limit p (put_deltas v p ps) ≡ some (posting_of v (skip_to limit p ps))
  unfolding next_loop skip_to posting_of put_deltas
  next_loop-skip_to fuel limit p [] l all enough = refl
  next_loop-skip_to zero limit p (q ∷ ps) l (u, all) enough =
      let sum = length-append (v.put_uvarint (delta_of p q)) (put_deltas v q ps) in
      absurd (omega (arith, enough, sum, law.put_size (delta_of p q)))
  next_loop-skip_to (suc fuel) limit p (q ∷ ps) l (u, all) enough =
      let front = v.put_uvarint (delta_of p q) in
      let rest = put_deltas v q ps in
      let pos = law.put_size (delta_of p q) in
      let sum = length-append front rest in
      let later = next_loop-skip_to fuel limit q ps u all (omega (arith, enough, sum, pos)) in
      next_step_lem fuel limit p (delta_of p q) front rest pos
        (law.uvarint-put (delta_of p q) rest (omega arith))
      ∙ ap
          (λ o.
            if leb p limit
            then next_loop v fuel limit o rest
            else some (record { blob = front ++ rest; first_hit = p }))
          (offset-delta p q l u)
      ∙ branch_lem p q limit ps later

  next_many_lem :
      (limit p : ℕ) (bytes : Bytes) (ps : List ℕ)
      → 0 < length bytes
      → next_loop v (length bytes) limit p bytes ≡ some (posting_of v ps)
      → next_compressed v limit (record { blob = bytes; first_hit = p })
        ≡ some (posting_of v (if limit == max_u32 then [] else ps))
  unfolding next_compressed posting_of
  next_many_lem limit p bytes ps pos e = ground arith

  next-skip_compressed :
      (limit : ℕ) (ps : List ℕ)
      → limit < 2 ^ 32
      → All IsU32 ps
      → next_compressed v limit (posting_of v ps) ≡ some (posting_of v (skip_compressed limit ps))
  unfolding next_compressed posting_of skip_compressed next_loop put_deltas
  next-skip_compressed limit [] l all = ground arith
  next-skip_compressed limit (p ∷ []) l (u, all) = ground arith
  next-skip_compressed limit (p ∷ q ∷ ps) l (u, all) =
      let sum = length-append (v.put_uvarint (delta_of p q)) (put_deltas v q ps) in
      next_many_lem limit p (put_deltas v p (q ∷ ps)) (skip_to limit p (q ∷ ps))
        (omega (arith, sum, law.put_size (delta_of p q)))
        (next_loop-skip_to (length (put_deltas v p (q ∷ ps))) limit p (q ∷ ps) u all (omega arith))

  -- A new iterator stands at the first posting.
  pub new_compressed_lem :
      (p : ℕ) (ps : List ℕ)
      → p < 2 ^ 32
      → new_compressed v (put_deltas v 0 (p ∷ ps)) ≡ some (posting_of v (p ∷ ps))
  unfolding new_compressed posting_of put_deltas
  new_compressed_lem p ps u =
      let front = v.put_uvarint (delta_of 0 p) in
      let bytes = front ++ put_deltas v p ps in
      ap
        (with_value
          (λ (d : ℕ). λ (sz : ℕ). some (record { blob = drop sz bytes; first_hit = d % 2 ^ 32 })))
        (law.uvarint-put (delta_of 0 p) (put_deltas v p ps) (omega arith))
      ∙ ap (λ ys. some (record { blob = ys; first_hit = delta_of 0 p % 2 ^ 32 }))
          (drop-append front (put_deltas v p ps))
      ∙ ap (λ d. some (record { blob = put_deltas v p ps; first_hit = d })) (omega arith)

-- Compared to the postings beyond the limit.
abbrev pub IsPast : ℕ → List ℕ → List ℕ → Type 0
IsPast limit ps rest =
    (rest ≡ skip_postings limit ps)
    ⊎ ((skip_postings limit ps ≡ []) × ((p : ℕ) × ((p ≤ limit) × (rest ≡ p ∷ []))))

skip_to-IsPast : (limit p : ℕ) (ps : List ℕ) → IsPast limit (p ∷ ps) (skip_to limit p ps)
unfolding skip_to skip_postings
skip_to-IsPast limit p [] = elim (Bool-cases (leb p limit)) [
  | inl e ↦ inr (ground arith, (p, (ground arith, refl)))
  | inr e ↦ inl (ground arith)
]
skip_to-IsPast limit p (q ∷ ps) = elim (Bool-cases (leb p limit)) [
  | inr e ↦ inl (ground arith)
  | inl e ↦ elim (skip_to-IsPast limit q ps) [
    | inl same ↦ inl (ground arith)
    | inr (gone, (x, (le, last))) ↦ inr (ground arith, (x, (le, ground arith)))
  ]
]

skip_max : (ps : List ℕ) → All IsU32 ps → skip_postings max_u32 ps ≡ []
unfolding skip_postings
skip_max [] all = refl
skip_max (p ∷ ps) (u, all) = let rest = skip_max ps all in ground arith

skip_compressed-IsPast :
    (limit : ℕ) (ps : List ℕ) → All IsU32 ps → IsPast limit ps (skip_compressed limit ps)
unfolding skip_compressed skip_postings
skip_compressed-IsPast limit [] all = inl refl
skip_compressed-IsPast limit (p ∷ []) all = inl refl
skip_compressed-IsPast limit (p ∷ q ∷ ps) all = elim (Bool-cases (limit == max_u32)) [
  | inr e ↦ subst (IsPast limit (p ∷ q ∷ ps)) (ground arith) (skip_to-IsPast limit p (q ∷ ps))
  | inl e ↦
      let gone = skip_max (p ∷ q ∷ ps) all in
      let same : limit ≡ max_u32 = ground arith in inl (ground arith)
]

module _ (v : Varint) (law : IsVarint v) where
  -- On the encoding of a list of uint32 postings, next neither panics nor loops for ever, and leaves the
  -- encoding of the postings after the leading ones within the limit, or, where all are within it, of
  -- nothing or of one posting that is within it.
  pub next_compressed_lem :
      (limit : ℕ) (ps : List ℕ)
      → limit < 2 ^ 32
      → All IsU32 ps
      → (rest : List ℕ) × ((next_compressed v limit (posting_of v ps) ≡ some (posting_of v rest))
          × IsPast limit ps rest)
  next_compressed_lem limit ps l all = (
    skip_compressed limit ps,
    (next-skip_compressed v law limit ps l all, skip_compressed-IsPast limit ps all),
  )
