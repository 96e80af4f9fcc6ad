-- ===== src/Hits/Adjacent.antt =====
-- hititer.go: findNext stops at the first pair of hits that are the distance apart.
use zoekt_archived.Prelude.{
  ℕ, zero, suc, ◌+◌, ◌%◌, ◌^◌, ◌≤◌, ◌<◌, ◌≡◌, refl, ap, ◌∙◌, inl, inr, ◌⊎◌, Bool, true, false, ◌||◌,
  ◌&&◌, Option, some, ltb, ◌==◌, if◌then◌else◌, if-intro, arith,
}
use zoekt_archived.MatchTree.{max_u32}
use zoekt_archived.Hits.{HitIterator}
use zoekt_archived.Hits.Laws.{IsHitIterator}
use zoekt_archived.Hits.Distance.{minus_u32, find_loop}

module _ {S T : Type 0} (has1 : S → ℕ → Bool) (has2 : T → ℕ → Bool) (distance : ℕ) where
  -- A hit of both, the distance apart.
  unfoldable pub has_pair : S → T → ℕ → Bool
  has_pair i1 i2 p = has1 i1 p && has2 i2 (p + distance)

first_here :
    {S : Type 0} {it : HitIterator S} {Ok : S → Type 0} {has : S → ℕ → Bool} {left : S → ℕ}
    (law : IsHitIterator it Ok has left) (s : S)
    → Ok s
    → it.first s < max_u32
    → has s (it.first s) ≡ true
first_here law s o u = elim (law.first_hit s o) [ inl e ↦ absurd (omega arith) | inr h ↦ h ]

first_bound :
    {S : Type 0} {it : HitIterator S} {Ok : S → Type 0} {has : S → ℕ → Bool} {left : S → ℕ}
    (law : IsHitIterator it Ok has left) (s : S)
    → Ok s
    → it.first s ≤ max_u32
first_bound {it = it} law s o = elim (law.first_hit s o) [
  | inl e ↦ omega arith
  | inr h ↦ let u = law.has_bound s (it.first s) o h in omega arith
]

module _ {S T : Type 0} {it1 : HitIterator S} {it2 : HitIterator T} {Ok1 : S → Type 0}
    {Ok2 : T → Type 0} {has1 : S → ℕ → Bool} {has2 : T → ℕ → Bool} {left1 : S → ℕ} {left2 : T → ℕ}
    (law1 : IsHitIterator it1 Ok1 has1 left1) (law2 : IsHitIterator it2 Ok2 has2 left2)
    (distance : ℕ) where
  -- No hit of the first iterator is so far up that adding the distance wraps around.
  abbrev pub NoWrap : S → Type 0
  NoWrap i1 = (p : ℕ) → has1 i1 p ≡ true → p + distance < max_u32

  -- What findNext leaves: the same pairs, the first iterator at the first of them or at the end.
  abbrev pub IsFound : S → T → S × T → Type 0
  IsFound i1 i2 (j1, j2) =
      (Ok1 j1 × Ok2 j2)
      × (((p : ℕ) → has_pair has1 has2 distance j1 j2 p ≡ has_pair has1 has2 distance i1 i2 p)
          × ((it1.first j1 ≡ max_u32) ⊎ (has_pair has1 has2 distance j1 j2 (it1.first j1) ≡ true)))

  -- Skipping the first iterator when its hit is too far down.
  pair_skip1 :
      (i1 : S) (i2 : T) (l p : ℕ)
      → Ok1 i1
      → Ok2 i2
      → l < max_u32
      → l + distance < it2.first i2
      → has_pair has1 has2 distance (it1.next l i1) i2 p ≡ has_pair has1 has2 distance i1 i2 p
  unfolding has_pair
  pair_skip1 i1 i2 l p o1 o2 u below =
      let least = law2.first_least i2 (p + distance) o2 in
      let keeps = law1.next_keeps i1 l p o1 in ground (arith, least, keeps)

  -- And the second one.
  pair_skip2 :
      (i1 : S) (i2 : T) (l p : ℕ)
      → Ok1 i1
      → Ok2 i2
      → l < max_u32
      → l < it1.first i1 + distance
      → has_pair has1 has2 distance i1 (it2.next l i2) p ≡ has_pair has1 has2 distance i1 i2 p
  unfolding has_pair
  pair_skip2 i1 i2 l p o1 o2 u below =
      let least = law1.first_least i1 p o1 in
      let keeps = law2.next_keeps i2 l (p + distance) o2 in ground (arith, least, keeps)

  pair_end :
      (i1 : S) (i2 : T) (p : ℕ)
      → Ok1 i1
      → Ok2 i2
      → ((it1.first i1 ≡ max_u32) ⊎ (it2.first i2 ≡ max_u32))
      → has_pair has1 has2 distance (it1.next max_u32 i1) i2 p ≡ has_pair has1 has2 distance i1 i2 p
  unfolding has_pair
  pair_end i1 i2 p o1 o2 e =
      let least1 = law1.first_least i1 p o1 in
      let bound1 = law1.has_bound i1 p o1 in
      let least2 = law2.first_least i2 (p + distance) o2 in
      let bound2 = law2.has_bound i2 (p + distance) o2 in
      let ends = law1.next_ends i1 p o1 in ground arith

  pair_first :
      (i1 : S) (i2 : T)
      → Ok1 i1
      → Ok2 i2
      → it1.first i1 < max_u32
      → it2.first i2 < max_u32
      → it1.first i1 + distance ≡ it2.first i2
      → has_pair has1 has2 distance i1 i2 (it1.first i1) ≡ true
  unfolding has_pair
  pair_first i1 i2 o1 o2 u1 u2 e =
      let h1 = first_here law1 i1 o1 u1 in
      let h2 : has2 i2 (it1.first i1 + distance) ≡ true =
        ap (has2 i2) e ∙ first_here law2 i2 o2 u2 in
      ground arith

  end_first : (i1 : S) → Ok1 i1 → it1.first (it1.next max_u32 i1) ≡ max_u32
  end_first i1 o1 = elim (law1.first_hit (it1.next max_u32 i1) (law1.next_ok i1 max_u32 o1)) [
    | inl e ↦ e
    | inr h ↦
        let gone = law1.next_ends i1 (it1.first (it1.next max_u32 i1)) o1 in absurd (ground arith)
  ]

  end_IsFound :
      (i1 : S) (i2 : T)
      → Ok1 i1
      → Ok2 i2
      → (it1.first i1 ≡ max_u32) ⊎ (it2.first i2 ≡ max_u32)
      → IsFound i1 i2 (it1.next max_u32 i1, i2)
  end_IsFound i1 i2 o1 o2 e =
      ((law1.next_ok i1 max_u32 o1, o2), (λ p. pair_end i1 i2 p o1 o2 e, inl (end_first i1 o1)))

  pub NoWrap-next : (i1 : S) (l : ℕ) → Ok1 i1 → NoWrap i1 → NoWrap (it1.next l i1)
  NoWrap-next i1 l o1 w p h = w p (law1.next_within i1 l p o1 h)

  abbrev Finds : S → T → Option (S × T) → Type 0
  Finds i1 i2 o = (out : S × T) × ((o ≡ some out) × IsFound i1 i2 out)

  Finds-after :
      (i1 j1 : S) (i2 j2 : T) (o : Option (S × T))
      → ((p : ℕ) → has_pair has1 has2 distance j1 j2 p ≡ has_pair has1 has2 distance i1 i2 p)
      → Finds j1 j2 o
      → Finds i1 i2 o
  Finds-after i1 j1 i2 j2 o same (out, (e, (ok, (pairs, first)))) =
      (out, (e, (ok, (λ p. pairs p ∙ same p, first))))

  -- The limits of the two skips.
  limit1_lem :
      (p1 p2 : ℕ)
      → p1 + distance < p2
      → p2 < max_u32
      → let l = minus_u32 p2 (distance + 1) in (p1 ≤ l) × ((l < max_u32) × (l + distance < p2))
  limit1_lem p1 p2 lt u = (omega arith, (omega arith, omega arith))

  limit2_lem :
      (p1 p2 : ℕ)
      → p2 < p1 + distance
      → p1 + distance < max_u32
      → let l = minus_u32 ((p1 + distance) % 2 ^ 32) 1 in
        (p2 ≤ l) × ((l < max_u32) × (l < p1 + distance))
  limit2_lem p1 p2 lt u = (omega arith, (omega arith, omega arith))

  firsts_lem :
      (i1 : S) (i2 : T)
      → Ok1 i1
      → Ok2 i2
      → ((it1.first i1 == max_u32) || (it2.first i2 == max_u32)) ≡ false
      → (it1.first i1 < max_u32) × (it2.first i2 < max_u32)
  firsts_lem i1 i2 o1 o2 e =
      let b1 = first_bound law1 i1 o1 in let b2 = first_bound law2 i2 o2 in ground arith

  pub find_loop-IsFound :
      (fuel : ℕ) (i1 : S) (i2 : T)
      → Ok1 i1
      → Ok2 i2
      → NoWrap i1
      → left1 i1 + left2 i2 < fuel
      → Finds i1 i2 (find_loop it1 it2 distance fuel i1 i2)
  unfolding find_loop
  find_loop-IsFound zero i1 i2 o1 o2 w enough = absurd (omega arith)
  find_loop-IsFound (suc fuel) i1 i2 o1 o2 w enough =
      let P = Finds i1 i2 in
      let p1 = it1.first i1 in
      let p2 = it2.first i2 in
      let l1 = minus_u32 p2 (distance + 1) in
      let l2 = minus_u32 ((p1 + distance) % 2 ^ 32) 1 in
      let skip1 = find_loop it1 it2 distance fuel (it1.next l1 i1) i2 in
      let skip2 = find_loop it1 it2 distance fuel i1 (it2.next l2 i2) in
      if-intro P ((p1 == max_u32) || (p2 == max_u32)) (some (it1.next max_u32 i1, i2))
        (if ltb ((p1 + distance) % 2 ^ 32) p2
          then skip1
          else if ltb p2 ((p1 + distance) % 2 ^ 32)
          then skip2
          else some (i1, i2))
        (λ e. ((it1.next max_u32 i1, i2), (refl, end_IsFound i1 i2 o1 o2 (ground arith))))
        (λ e.
          let (u1, u2) = firsts_lem i1 i2 o1 o2 e in
          let u = w p1 (first_here law1 i1 o1 u1) in
          if-intro P (ltb ((p1 + distance) % 2 ^ 32) p2) skip1
            (if ltb p2 ((p1 + distance) % 2 ^ 32) then skip2 else some (i1, i2))
            (λ lt.
              let (le, (b, below)) = limit1_lem p1 p2 (ground arith) u2 in
              Finds-after i1 (it1.next l1 i1) i2 i2 skip1 (λ p. pair_skip1 i1 i2 l1 p o1 o2 b below)
                (find_loop-IsFound fuel (it1.next l1 i1) i2 (law1.next_ok i1 l1 o1) o2
                  (NoWrap-next i1 l1 o1 w) (omega (arith, enough, law1.next_less i1 l1 o1 le u1))))
            (λ ge.
              if-intro P (ltb p2 ((p1 + distance) % 2 ^ 32)) skip2 (some (i1, i2))
                (λ gt.
                  let (le, (b, below)) = limit2_lem p1 p2 (ground arith) u in
                  Finds-after i1 i1 i2 (it2.next l2 i2) skip2
                    (λ p. pair_skip2 i1 i2 l2 p o1 o2 b below)
                    (find_loop-IsFound fuel i1 (it2.next l2 i2) o1 (law2.next_ok i2 l2 o2) w
                      (omega (arith, enough, law2.next_less i2 l2 o2 le u2))))
                (λ le. (
                  (i1, i2),
                  (
                    refl,
                    ((o1, o2), (λ p. refl, inr (pair_first i1 i2 o1 o2 u1 u2 (ground arith)))),
                  ),
                ))))
