-- ===== src/Provider/LineWalk.antt =====
-- matchiter.go: the search in the newlines finds what a walk through them finds.
use mathlib.Core.Path.{subst}
use zoekt_archived.Prelude.{
  ℕ, zero, suc, ◌+◌, ◌-◌, ◌%◌, ◌^◌, ◌≤◌, ◌<◌, ◌≡◌, refl, ap, sym, ◌∙◌, Bool, true, false, List, [],
  ◌∷◌, length, get_or, ltb, leb, if◌then◌else◌, arith,
}
use zoekt_archived.MatchTree.{Candidate, max_u32}
use zoekt_archived.Hits.Memory.{IsAscending}
use zoekt_archived.Provider.Search.{sort_search, sort_search_lem, IsChange}
use zoekt_archived.Provider.Line.{line}

-- From the number and the start of a line: the first line that ends at or behind the offset.
unfoldable pub walk : ℕ → ℕ → ℕ → ℕ → List ℕ → ℕ × (ℕ × ℕ)
walk num start size off [] = (num, (start, size))
walk num start size off (n ∷ ns) =
    let rest = walk (num + 1) (n + 1) size off ns in if leb off n then (num, (start, n)) else rest

-- The line at index r of the newlines.
at_index : ℕ → ℕ → ℕ → List ℕ → ℕ → ℕ × (ℕ × ℕ)
at_index num start size ns r = (
  r + num,
  (
    if ltb 0 r then (get_or ns (r - 1) 0 + 1) % 2 ^ 32 else start,
    if ltb r (length ns) then get_or ns r 0 else size,
  ),
)

head_le :
    (lo r : ℕ) (ns : List ℕ)
    → IsAscending lo ns
    → r < length ns
    → (lo ≤ get_or ns r 0) × (get_or ns r 0 < max_u32)
unfolding IsAscending
head_le lo r [] a lt = absurd (omega arith)
head_le lo zero (n ∷ ns) (le, (u, a)) lt = (le, u)
head_le lo (suc r) (n ∷ ns) (le, (u, a)) lt =
    let (b, t) = head_le (n + 1) r ns a (omega arith) in (omega arith, t)

at_index_step :
    (num start size n : ℕ) (ns : List ℕ) (r : ℕ)
    → n < max_u32
    → at_index num start size (n ∷ ns) (suc r) ≡ at_index (num + 1) (n + 1) size ns r
unfolding at_index
at_index_step num start size n ns zero lt =
    let count : suc zero + num ≡ zero + (num + 1) = omega arith in
    let begin : (if ltb 0 (suc zero)
          then (get_or (n ∷ ns) (suc zero - 1) 0 + 1) % 2 ^ 32
          else start)
        ≡ (if ltb 0 zero then (get_or ns (zero - 1) 0 + 1) % 2 ^ 32 else n + 1) =
      ground arith in
    let end : (if ltb (suc zero) (suc (length ns)) then get_or ns zero 0 else size)
        ≡ (if ltb zero (length ns) then get_or ns zero 0 else size) =
      ground arith in
    λ i. (count i, (begin i, end i))
at_index_step num start size n ns (suc r) lt =
    let count : suc (suc r) + num ≡ suc r + (num + 1) = omega arith in
    let place : suc (suc r) - 1 ≡ suc (suc r - 1) = omega arith in
    let begin : (if ltb 0 (suc (suc r))
          then (get_or (n ∷ ns) (suc (suc r) - 1) 0 + 1) % 2 ^ 32
          else start)
        ≡ (if ltb 0 (suc r) then (get_or ns (suc r - 1) 0 + 1) % 2 ^ 32 else n + 1) =
      ground (arith, ap (λ k. get_or (n ∷ ns) k 0) place) in
    let end : (if ltb (suc (suc r)) (suc (length ns)) then get_or ns (suc r) 0 else size)
        ≡ (if ltb (suc r) (length ns) then get_or ns (suc r) 0 else size) =
      ground arith in
    λ i. (count i, (begin i, end i))

walk_lem :
    (num start size off lo : ℕ) (ns : List ℕ) (r : ℕ)
    → IsAscending lo ns
    → r ≤ length ns
    → (r < length ns → off ≤ get_or ns r 0)
    → ((k : ℕ) → r ≡ suc k → get_or ns k 0 < off)
    → at_index num start size ns r ≡ walk num start size off ns
unfolding walk at_index IsAscending
walk_lem num start size off lo [] zero a le above below =
    let count : 0 + num ≡ num = omega arith in λ i. (count i, (start, size))
walk_lem num start size off lo [] (suc r) a le above below = absurd (omega arith)
walk_lem num start size off lo (n ∷ ns) zero a le above below =
    let count : 0 + num ≡ num = omega arith in
    let end : (if ltb 0 (suc (length ns)) then n else size) ≡ n = ground arith in
    let found : leb off n ≡ true = ground (arith, above (omega arith)) in
    (λ i. (count i, (start, end i)))
    ∙ ap (λ b. if b then (num, (start, n)) else walk (num + 1) (n + 1) size off ns) (sym found)
walk_lem num start size off lo (n ∷ ns) (suc r) (b, (u, a)) le above below =
    let last = below r refl in
    let least = head_le n r (n ∷ ns) (omega arith, (u, a)) (omega arith) in
    let passed : leb off n ≡ false = ground (arith, last, least) in
    at_index_step num start size n ns r u
    ∙ walk_lem (num + 1) (n + 1) size off (n + 1) ns r a (omega arith) (λ lt. above (omega arith))
        (λ k e. subst (λ j. get_or (n ∷ ns) j 0 < off) e last)
    ∙ ap (λ b. if b then (num, (start, n)) else walk (num + 1) (n + 1) size off ns) (sym passed)

-- On ascending newlines below the end mark the search finds what the walk finds.
pub line-walk :
    (m : Candidate) (size : ℕ) (newlines : List ℕ)
    → IsAscending 0 newlines
    → line m newlines size ≡ walk 1 0 size m.byte_offset newlines
unfolding line at_index IsChange
line-walk m size newlines a =
    let p : ℕ → Bool = λ n. leb m.byte_offset (get_or newlines n 0) in
    let r = sort_search (length newlines) p in
    let (le, (above, below)) = sort_search_lem (length newlines) p in
    walk_lem 1 0 size m.byte_offset 0 newlines r a le (λ lt. ground (arith, above))
      (λ k e.
        let place : r - 1 ≡ k = omega (arith, e) in
        let shifted = ap (λ j. leb m.byte_offset (get_or newlines j 0)) place in
        ground (arith, below, shifted, e))
