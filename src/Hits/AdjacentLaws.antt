-- ===== src/Hits/AdjacentLaws.antt =====
-- hititer.go: the operations of distanceHitIterator.
use mathlib.Core.Path.{ap₂}
use zoekt_archived.Prelude.{
  ℕ, ◌+◌, ◌%◌, ◌^◌, ◌<◌, ◌≡◌, ap, ◌∙◌, ◌⊎◌, Bool, true, some, ltb, if◌then◌else◌, arith, ◌&&◌, sym,
  inl, inr, Bool-cases,
}
use zoekt_archived.MatchTree.{max_u32}
use zoekt_archived.Hits.{HitIterator}
use zoekt_archived.Hits.Laws.{IsHitIterator}
use zoekt_archived.Hits.Distance.{DistanceIter, find_next, next_of_distance, with_pair}
use zoekt_archived.Hits.Adjacent.{has_pair, find_loop-IsFound}

-- A hit of the first iterator with one of the second at the distance.
abbrev pub has_hit : {S T : Type 0} → (S → ℕ → Bool) → (T → ℕ → Bool) → DistanceIter S T → ℕ → Bool
has_hit has1 has2 i p = has_pair has1 has2 i.distance i.i1 i.i2 p

beyond_lem :
    (limit p : ℕ) (a b : Bool) → (limit < p → a ≡ b) → (a && ltb limit p) ≡ (b && ltb limit p)
beyond_lem limit p a b h = ground arith

subset_lem : (a b : Bool) → (a ≡ true → b ≡ true) → (a && b) ≡ a
subset_lem a b h = ground arith

module _ {S T : Type 0} {it1 : HitIterator S} {it2 : HitIterator T} {Ok1 : S → Type 0}
    {Ok2 : T → Type 0} {has1 : S → ℕ → Bool} {has2 : T → ℕ → Bool} {left1 : S → ℕ} {left2 : T → ℕ}
    (law1 : IsHitIterator it1 Ok1 has1 left1) (law2 : IsHitIterator it2 Ok2 has2 left2) where
  -- The two iterators are in order, and no hit of the first one wraps around at the distance.
  abbrev pub IsOk : DistanceIter S T → Type 0
  IsOk i = (Ok1 i.i1 × Ok2 i.i2) × ((p : ℕ) → has1 i.i1 p ≡ true → p + i.distance < max_u32)

  -- What first then returns: the end mark, or a hit.
  abbrev pub StandsAtHit : DistanceIter S T → Type 0
  StandsAtHit i = (it1.first i.i1 ≡ max_u32) ⊎ (has_hit has1 has2 i (it1.first i.i1) ≡ true)

  -- findNext returns; the hits are the same, and the first iterator is at a hit or at its end.
  pub find_next_lem :
      (i : DistanceIter S T)
      → IsOk i
      → (j : DistanceIter S T) × ((find_next it1 it2 left1 left2 i ≡ some j)
          × (((p : ℕ) → has_hit has1 has2 j p ≡ has_hit has1 has2 i p) × StandsAtHit j))
  unfolding find_next
  find_next_lem i ((o1, o2), w) =
      let (out, (e, (ok, (pairs, first)))) =
        find_loop-IsFound law1 law2 i.distance (left1 i.i1 + left2 i.i2 + 1) i.i1 i.i2 o1 o2 w
          (omega arith) in
      (
        record i { i1 = out.0; i2 = out.1 },
        (ap (with_pair it1 it2 left1 left2 i) e, (pairs, first)),
      )

  abbrev l2 : ℕ → ℕ → ℕ
  l2 limit distance =
      let sum = (limit + distance) % 2 ^ 32 in if ltb sum limit then max_u32 else sum

  l2_lem : (limit distance : ℕ) → limit + distance < max_u32 → l2 limit distance ≡ limit + distance
  l2_lem limit distance lt = ground arith

  keep_lem :
      (limit distance p : ℕ) (i1 : S) (i2 : T)
      → Ok1 i1
      → Ok2 i2
      → (has1 i1 p ≡ true → p + distance < max_u32)
      → limit < p
      → limit < max_u32
      → has_pair has1 has2 distance (it1.next limit i1) (it2.next (l2 limit distance) i2) p
        ≡ has_pair has1 has2 distance i1 i2 p
  unfolding has_pair
  keep_lem limit distance p i1 i2 o1 o2 w lt u = elim (Bool-cases (has1 i1 p)) [
    | inr gone ↦ let same = law1.next_keeps i1 limit p o1 lt u in ground arith
    | inl h ↦
        let same = law1.next_keeps i1 limit p o1 lt u in
        let b = w h in
        let e = l2_lem limit distance (omega arith) in
        let same2 =
          law2.next_keeps i2 (l2 limit distance) (p + distance) o2 (omega (arith, e, lt))
            (omega (arith, e, b, lt)) in
        ap₂ (λ x y. x && y) same same2
  ]

  within_lem :
      (limit l distance p : ℕ) (i1 : S) (i2 : T)
      → Ok1 i1
      → Ok2 i2
      → has_pair has1 has2 distance (it1.next limit i1) (it2.next l i2) p ≡ true
      → has_pair has1 has2 distance i1 i2 p ≡ true
  unfolding has_pair
  within_lem limit l distance p i1 i2 o1 o2 h =
      let a = law1.next_within i1 limit p o1 in
      let b = law2.next_within i2 l (p + distance) o2 in ground arith

  -- next returns; the hits beyond the limit are the same, no new one comes, and the first iterator is at
  -- a hit or at its end. The limit is not maxUInt32.
  pub next_of_distance_lem :
      (limit : ℕ) (i : DistanceIter S T)
      → IsOk i
      → limit < max_u32
      → (j : DistanceIter S T) × ((next_of_distance it1 it2 left1 left2 limit i ≡ some j)
          × ((((p : ℕ)
                  → (has_hit has1 has2 j p && ltb limit p) ≡ (has_hit has1 has2 i p && ltb limit p))
                × ((p : ℕ)
                    → (has_hit has1 has2 j p && has_hit has1 has2 i p) ≡ has_hit has1 has2 j p))
              × StandsAtHit j))
  unfolding next_of_distance
  next_of_distance_lem limit i ((o1, o2), w) u =
      let moved : DistanceIter S T = record i {
        i1 = it1.next limit i.i1;
        i2 = it2.next (l2 limit i.distance) i.i2;
      } in
      let ok : IsOk moved = (
        (law1.next_ok i.i1 limit o1, law2.next_ok i.i2 (l2 limit i.distance) o2),
        λ p h. w p (law1.next_within i.i1 limit p o1 h),
      ) in
      let (j, (e, (pairs, first))) = find_next_lem moved ok in
      (
        j,
        (
          e,
          (
            (
              λ p.
                  beyond_lem limit p (has_hit has1 has2 j p) (has_hit has1 has2 i p)
                    (λ lt. pairs p ∙ keep_lem limit i.distance p i.i1 i.i2 o1 o2 (w p) lt u),
              λ p. subset_lem (has_hit has1 has2 j p) (has_hit has1 has2 i p) (λ h.
                  within_lem limit (l2 limit i.distance) i.distance p i.i1 i.i2 o1 o2
                    (sym (pairs p) ∙ h)),
            ),
            first,
          ),
        ),
      )
