-- ===== src/Hits.antt =====
-- hititer.go: the iterators over the places where an n-gram occurs.
pub mod Compressed
pub mod Memory
pub mod Laws
pub mod Merging
pub mod Distance
pub mod Adjacent
pub mod AdjacentLaws
use zoekt_archived.Prelude.{
  ℕ, zero, suc, ◌-◌, ◌%◌, ◌^◌, Bool, false, ◌&&◌, ◌||◌, List, [], ◌∷◌, Option, none, some, Bytes,
  drop, ltb, leb, ◌==◌, if◌then◌else◌, length,
}
use zoekt_archived.MatchTree.{max_u32}
use zoekt_archived.Bits.Deltas.{Varint, offset_of, with_value}

-- The interface hitIterator, less its statistics.
pub record HitIterator (S : Type 0) : Type 0 where
  pub first : S → ℕ
  pub next : ℕ → S → S

-- inMemoryIterator
unfoldable pub first_in_memory : List ℕ → ℕ
first_in_memory [] = max_u32
first_in_memory (p ∷ postings) = p

-- The loop of inMemoryIterator.next.
unfoldable pub skip_postings : ℕ → List ℕ → List ℕ
skip_postings limit [] = []
skip_postings limit (p ∷ postings) =
    let rest = skip_postings limit postings in if leb p limit then rest else p ∷ postings

unfoldable pub next_in_memory : ℕ → List ℕ → List ℕ
unfolding skip_postings
next_in_memory limit postings =
    if limit == max_u32 then skip_postings limit [] else skip_postings limit postings

abbrev pub in_memory : HitIterator (List ℕ)
in_memory = record { first = first_in_memory; next = next_in_memory }

-- compressedPostingIterator, without `orig` and `what`, which only its statistics and String read.
pub record CompressedPosting : Type 0 where
  pub blob : Bytes
  pub first_hit : ℕ

module _ (v : Varint) where
  -- `none` is a panic in Uvarint's caller, as in Bits.Deltas.
  unfoldable pub new_compressed : Bytes → Option CompressedPosting
  new_compressed b =
      with_value (λ d sz. some (record { blob = drop sz b; first_hit = d % 2 ^ 32 })) (v.uvarint b)

  -- The loop of next. A round takes a byte, so the length of the blob is enough fuel.
  unfoldable pub next_loop : ℕ → ℕ → ℕ → Bytes → Option CompressedPosting
  next_loop fuel limit p [] = some (record { blob = []; first_hit = p })
  next_loop zero limit p (b ∷ bs) = none
  next_loop (suc fuel) limit p (b ∷ bs) =
      let rest =
        with_value (λ delta sz. next_loop fuel limit (offset_of p delta) (drop sz (b ∷ bs)))
          (v.uvarint (b ∷ bs)) in
      if leb p limit then rest else some (record { blob = b ∷ bs; first_hit = p })

  abbrev pub is_blank : Bytes → Bool
  is_blank bytes = length bytes == 0

  unfoldable pub next_compressed : ℕ → CompressedPosting → Option CompressedPosting
  unfolding next_loop
  next_compressed limit i =
      if (limit == max_u32) || (leb i.first_hit limit && is_blank i.blob)
      then some (record { blob = if limit == max_u32 then [] else i.blob; first_hit = max_u32 })
      else next_loop (length i.blob) limit i.first_hit i.blob

-- mergingIterator
module _ {S : Type 0} (it : HitIterator S) where
  -- The loop of first, with the variable r.
  unfoldable pub first_loop : ℕ → List S → ℕ
  first_loop r [] = r
  first_loop r (j ∷ iters) = first_loop (if ltb (it.first j) r then it.first j else r) iters

  unfoldable pub next_merging : ℕ → List S → List S
  next_merging limit [] = []
  next_merging limit (j ∷ iters) = it.next limit j ∷ next_merging limit iters

  abbrev pub merging : HitIterator (List S)
  merging = record { first = first_loop max_u32; next = next_merging }
