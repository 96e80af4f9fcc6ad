-- ===== src/Provider/LineEnds.antt =====
-- contentprovider.go: fillContentMatches extends a line to the first end that is not before its matches.
use mathlib.Core.Path.{subst}
use zoekt_archived.Prelude.{
  ℕ, zero, suc, ◌+◌, ◌-◌, ◌≤◌, ◌<◌, ◌≡◌, refl, ap, sym, ◌∙◌, ◌⊎◌, inl, inr, ◌&&◌, [], ◌∷◌, Option,
  none, some, Bytes, length, length-drop, drop, get_or, ltb, ◌==◌, if-intro, Bool-cases, arith,
}
use zoekt_archived.Provider.Fill.{shift, index_byte, next_end, extend_line}

get_or-drop : (n i : ℕ) (xs : Bytes) → get_or (drop n xs) i 0 ≡ get_or xs (n + i) 0
get_or-drop zero i xs = ap (λ j. get_or xs j 0) (omega arith)
get_or-drop (suc n) i [] = refl
get_or-drop (suc n) i (x ∷ xs) =
    let place : suc n + i ≡ suc (n + i) = omega arith in
    get_or-drop n i xs ∙ ap (λ j. get_or (x ∷ xs) j 0) (sym place)

IsIndex : ℕ → Bytes → Option ℕ → Type 0
IsIndex c xs none = Unit
IsIndex c xs (some n) = (n < length xs) × (get_or xs n 0 ≡ c)

IsIndex-shift :
    (c x : ℕ) (xs : Bytes) (o : Option ℕ) → IsIndex c xs o → IsIndex c (x ∷ xs) (shift o)
unfolding IsIndex
IsIndex-shift c x xs none i = tt
IsIndex-shift c x xs (some n) (lt, eq) = (omega arith, eq)

index_byte_lem : (c : ℕ) (xs : Bytes) → IsIndex c xs (index_byte c xs)
unfolding index_byte IsIndex
index_byte_lem c [] = tt
index_byte_lem c (x ∷ xs) =
    let later = IsIndex-shift c x xs (index_byte c xs) (index_byte_lem c xs) in
    if-intro (IsIndex c (x ∷ xs)) (x == c) (some 0) (shift (index_byte c xs))
      (λ here. (omega arith, ground arith)) (λ _. later)

-- The end of a line: a newline, or the end of the document.
abbrev pub IsEnd : Bytes → ℕ → Type 0
IsEnd data' end = (end ≤ length data') × ((end ≡ length data') ⊎ (get_or data' end 0 ≡ 10))

next_end-IsEnd :
    (data' : Bytes) (line_end : ℕ) (o : Option ℕ)
    → line_end < length data'
    → IsIndex 10 (drop (line_end + 1) data') o
    → IsEnd data' (next_end data' line_end o) × (line_end < next_end data' line_end o)
unfolding IsIndex
next_end-IsEnd data' line_end none lt i = ((omega arith, inl refl), lt)
next_end-IsEnd data' line_end (some n) lt (short, newline) =
    let size = length-drop (line_end + 1) data' in
    let place : line_end + (n + 1) ≡ line_end + 1 + n = omega arith in
    (
      (
        omega (arith, size),
        inr (ap (λ j. get_or data' j 0) place ∙ sym (get_or-drop (line_end + 1) n data') ∙ newline),
      ),
      omega arith,
    )

index_byte_least :
    (c j : ℕ) (xs : Bytes)
    → j < length xs
    → get_or xs j 0 ≡ c
    → (n : ℕ) × ((index_byte c xs ≡ some n) × (n ≤ j))
unfolding index_byte
index_byte_least c j [] lt here = absurd (omega arith)
index_byte_least c zero (x ∷ xs) lt here = (0, (ground arith, omega arith))
index_byte_least c (suc j) (x ∷ xs) lt here =
    let (n, (run, le)) = index_byte_least c j xs (omega arith) here in
    if-intro (λ o. (n : ℕ) × ((o ≡ some n) × (n ≤ suc j))) (x == c) (some 0)
      (shift (index_byte c xs)) (λ _. (0, (refl, omega arith)))
      (λ _. (suc n, (ap shift run, omega arith)))

-- No end lies between.
next_end_least :
    (data' : Bytes) (line_end p : ℕ)
    → IsEnd data' p
    → line_end < p
    → next_end data' line_end (index_byte 10 (drop (line_end + 1) data')) ≤ p
next_end_least data' line_end p (le, at) lt =
    let rest = drop (line_end + 1) data' in
    let size = length-drop (line_end + 1) data' in
    let ((bound, _), _) =
      next_end-IsEnd data' line_end (index_byte 10 rest) (omega arith) (index_byte_lem 10 rest) in
    elim at [
      | inl at_length ↦ omega (arith, bound, at_length)
      | inr newline ↦ elim (Bool-cases (ltb p (length data'))) [
        | inr far ↦
            let no_less : length data' ≤ p = ground (arith, far) in omega (arith, bound, no_less)
        | inl near ↦
            let below : p < length data' = ground (arith, near) in
            let j = p - (line_end + 1) in
            let place : line_end + 1 + j ≡ p = omega arith in
            let (n, (run, first)) =
              index_byte_least 10 j rest (omega (arith, size, below))
                (get_or-drop (line_end + 1) j data' ∙ ap (λ k. get_or data' k 0) place ∙ newline) in
            subst (λ o. next_end data' line_end o ≤ p) (sym run) (omega (arith, first))
      ]
    ]

pub extend_line_least :
    (fuel : ℕ) (data' : Bytes) (end_match line_end p : ℕ)
    → IsEnd data' p
    → line_end ≤ p
    → end_match ≤ p
    → extend_line fuel data' end_match line_end ≤ p
unfolding extend_line
extend_line_least zero data' end_match line_end p is_end le covers = le
extend_line_least (suc fuel) data' end_match line_end p is_end le covers =
    let next = next_end data' line_end (index_byte 10 (drop (line_end + 1) data')) in
    if-intro (λ r. r ≤ p) (ltb line_end (length data') && ltb line_end end_match)
      (extend_line fuel data' end_match next) line_end
      (λ more.
        extend_line_least fuel data' end_match next p is_end
          (next_end_least data' line_end p is_end (ground arith)) covers)
      (λ _. le)

pub extend_line_lem :
    (fuel : ℕ) (data' : Bytes) (end_match line_end : ℕ)
    → IsEnd data' line_end
    → length data' - line_end ≤ fuel
    → end_match ≤ length data'
    → IsEnd data' (extend_line fuel data' end_match line_end)
      × ((line_end ≤ extend_line fuel data' end_match line_end)
          × (end_match ≤ extend_line fuel data' end_match line_end))
unfolding extend_line
extend_line_lem zero data' end_match line_end (le, at) enough inside =
    ((le, at), (omega arith, omega arith))
extend_line_lem (suc fuel) data' end_match line_end (le, at) enough inside =
    let next = next_end data' line_end (index_byte 10 (drop (line_end + 1) data')) in
    if-intro (λ r. IsEnd data' r × ((line_end ≤ r) × (end_match ≤ r)))
      (ltb line_end (length data') && ltb line_end end_match)
      (extend_line fuel data' end_match next) line_end
      (λ more.
        let (is_end, lt) =
          next_end-IsEnd data' line_end (index_byte 10 (drop (line_end + 1) data')) (ground arith)
            (index_byte_lem 10 (drop (line_end + 1) data')) in
        let (a, (b, c)) = extend_line_lem fuel data' end_match next is_end (omega arith) inside in
        (a, (omega arith, c)))
      (λ done. ((le, at), (omega arith, ground arith)))
