-- ===== src/Hits/Distance.antt =====
-- hititer.go: distanceHitIterator, over two hit iterators.
use zoekt_archived.Prelude.{
  ℕ, zero, suc, ◌+◌, ◌-◌, ◌%◌, ◌^◌, Bool, true, ◌||◌, Option, none, some, ltb, ◌==◌, if◌then◌else◌,
}
use zoekt_archived.MatchTree.{max_u32}
use zoekt_archived.Hits.{HitIterator}

pub record DistanceIter (S T : Type 0) : Type 0 where
  pub started : Bool
  pub distance : ℕ
  pub i1 : S
  pub i2 : T

-- a - b, on uint32.
abbrev pub minus_u32 : ℕ → ℕ → ℕ
minus_u32 a b = (a + (2 ^ 32 - b)) % 2 ^ 32

module _ {S T : Type 0} (it1 : HitIterator S) (it2 : HitIterator T) (distance : ℕ) where
  -- The loop of findNext; `none` is a loop that is out of fuel.
  unfoldable pub find_loop : ℕ → S → T → Option (S × T)
  find_loop zero i1 i2 = none
  find_loop (suc fuel) i1 i2 =
      let p1 = it1.first i1 in
      let p2 = it2.first i2 in
      let skip1 = find_loop fuel (it1.next (minus_u32 p2 (distance + 1)) i1) i2 in
      let skip2 = find_loop fuel i1 (it2.next (minus_u32 ((p1 + distance) % 2 ^ 32) 1) i2) in
      if (p1 == max_u32) || (p2 == max_u32)
      then some (it1.next max_u32 i1, i2)
      else if ltb ((p1 + distance) % 2 ^ 32) p2
      then skip1
      else if ltb p2 ((p1 + distance) % 2 ^ 32)
      then skip2
      else some (i1, i2)

-- `left1` and `left2` bound the hits to come: every round but the last skips one.
module _ {S T : Type 0} (it1 : HitIterator S) (it2 : HitIterator T) (left1 : S → ℕ)
    (left2 : T → ℕ) where
  abbrev pub with_pair : DistanceIter S T → Option (S × T) → Option (DistanceIter S T)
  with_pair i none = none
  with_pair i (some (j1, j2)) = some (record i { i1 = j1; i2 = j2 })

  unfoldable pub find_next : DistanceIter S T → Option (DistanceIter S T)
  unfolding find_loop
  find_next i = with_pair i (find_loop it1 it2 i.distance (left1 i.i1 + left2 i.i2 + 1) i.i1 i.i2)

  -- first: the hit, and the iterator after a first findNext.
  abbrev pub with_first : Option (DistanceIter S T) → Option (ℕ × DistanceIter S T)
  with_first none = none
  with_first (some i) = some (it1.first i.i1, record i { started = true })

  unfoldable pub first_of_distance : DistanceIter S T → Option (ℕ × DistanceIter S T)
  unfolding find_next
  first_of_distance i = with_first (if i.started then some i else find_next i)

  unfoldable pub next_of_distance : ℕ → DistanceIter S T → Option (DistanceIter S T)
  unfolding find_next
  next_of_distance limit i =
      let sum = (limit + i.distance) % 2 ^ 32 in
      let l2 = if ltb sum limit then max_u32 else sum in
      find_next (record i { i1 = it1.next limit i.i1; i2 = it2.next l2 i.i2 })
