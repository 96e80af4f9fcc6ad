-- ===== src/Provider/ScoreLaws.antt =====
-- contentprovider.go: matchScore takes the largest score, and scores are bounded.
use zoekt_archived.Prelude.{
  ℕ, ◌+◌, ◌-◌, ◌≤◌, ◌≡◌, refl, ap, sym, ◌∙◌, ◌⊎◌, inl, inr, Bool, true, false, not, All, if-intro,
  List, [], ◌∷◌, Option, none, some, Bytes, length, get_or, ltb, ◌==◌, if◌then◌else◌, arith,
}
use zoekt_archived.Bits.Deltas.{DocumentSection}
use zoekt_archived.Provider.Score.{
  find_section, Fragment, LineMatch, end_boundary, fragment_score, score_loop, match_score,
  word_score, symbol_score, start_boundary, byte_class, same_class,
}

word_score_le : (a b : Bool) → word_score a b ≤ 500
unfolding word_score
word_score_le true true = omega arith
word_score_le true false = omega arith
word_score_le false true = omega arith
word_score_le false false = omega arith

symbol_score_le : (o : Option DocumentSection) (f : Fragment) → symbol_score o f ≤ 7000
unfolding symbol_score
symbol_score_le none f = omega arith
symbol_score_le (some sec) f = ground arith

-- The end of a fragment lies in its line.
abbrev pub IsWithin : Bytes → Fragment → Type 0
IsWithin line f = f.line_offset + f.match_length ≤ length line

end_boundary_lem :
    (line : Bytes) (f : Fragment) → IsWithin line f → (b : Bool) × (end_boundary line f ≡ some b)
unfolding end_boundary
end_boundary_lem line f le =
    let end = f.line_offset + f.match_length in
    let differ =
      not (same_class (byte_class (get_or line (end - 1) 0)) (byte_class (get_or line end 0))) in
    let later = if ltb (length line) end then none else some differ in
    let inner = if end == length line then some true else later in
    if-intro (λ o. (b : Bool) × (o ≡ some b)) (end == 0) (some false) inner (λ _. (false, refl))
      (λ _.
        if-intro (λ o. (b : Bool) × (o ≡ some b)) (end == length line) (some true) later
          (λ _. (true, refl))
          (λ _.
            if-intro (λ o. (b : Bool) × (o ≡ some b)) (ltb (length line) end) none (some differ)
              (λ lt. absurd (ground arith)) (λ _. (differ, refl))))

fragment_score_lem :
    (secs : List DocumentSection) (line : Bytes) (f : Fragment)
    → IsWithin line f
    → (n : ℕ) × ((fragment_score secs line f ≡ some n) × (n ≤ 7500))
unfolding fragment_score
fragment_score_lem secs line f le =
    let (b, eq) = end_boundary_lem line f le in
    let start = start_boundary line f in
    let symbol = symbol_score (find_section secs f.offset f.match_length) f in
    let words = word_score_le start b in
    let symbols = symbol_score_le (find_section secs f.offset f.match_length) f in
    (
      word_score start b + symbol,
      (
        ap
            (λ o. elim o as (λ _. Option ℕ) [
              | none ↦ none
              | some e ↦ some (word_score start e + symbol)
            ])
            eq,
        omega (arith, words, symbols),
      ),
    )

-- What the loop leaves is at least as large as each score and as where it started.
abbrev pub IsBest : List DocumentSection → Bytes → ℕ → Fragment → Type 0
IsBest secs line n f = (k : ℕ) → fragment_score secs line f ≡ some k → k ≤ n

-- The score is that of one of the fragments, or the one before them.
unfoldable pub IsReached : List DocumentSection → Bytes → ℕ → ℕ → List Fragment → Type 0
IsReached secs line n best [] = n ≡ best
IsReached secs line n best (f ∷ fs) =
    (fragment_score secs line f ≡ some n) ⊎ IsReached secs line n best fs

IsReached-change :
    (secs : List DocumentSection) (line : Bytes) (n k best : ℕ) (fs : List Fragment)
    → IsReached secs line n k fs
    → (n ≡ k) ⊎ IsReached secs line n best fs
unfolding IsReached
IsReached-change secs line n k best [] r = inl r
IsReached-change secs line n k best (f ∷ fs) (inl eq) = inr (inl eq)
IsReached-change secs line n k best (f ∷ fs) (inr r) =
    elim (IsReached-change secs line n k best fs r) [
      | inl same ↦ inl same
      | inr later ↦ inr (inr later)
    ]

IsReached-next :
    (secs : List DocumentSection) (line : Bytes) (n k best : ℕ) (f : Fragment) (fs : List Fragment)
    → fragment_score secs line f ≡ some k
    → (b : Bool) → IsReached secs line n (if b then k else best) fs
    → IsReached secs line n best (f ∷ fs)
unfolding IsReached
IsReached-next secs line n k best f fs eq false r = inr r
IsReached-next secs line n k best f fs eq true r = elim (IsReached-change secs line n k best fs r) [
  | inl same ↦ inl (eq ∙ ap some (sym same))
  | inr later ↦ inr later
]

score_loop_lem :
    (secs : List DocumentSection) (line : Bytes) (best : ℕ) (fs : List Fragment)
    → best ≤ 7500
    → All (IsWithin line) fs
    → (n : ℕ) × ((score_loop secs line best fs ≡ some n)
        × ((best ≤ n)
            × ((n ≤ 7500) × (All (IsBest secs line n) fs × IsReached secs line n best fs))))
unfolding score_loop IsReached
score_loop_lem secs line best [] le all = (best, (refl, (omega arith, (le, (tt, refl)))))
score_loop_lem secs line best (f ∷ fs) le (w, all) =
    let (k, (eq, small)) = fragment_score_lem secs line f w in
    let next = if ltb best k then k else best in
    let (n, (run, (ge, (bound, (rest, reached))))) =
      score_loop_lem secs line next fs (ground arith) all in
    let first : IsBest secs line n f =
      λ k' eq'. let same = sym eq ∙ eq' in ground (arith, same, ge) in
    (
      n,
      (
        ap
              (λ o. elim o as (λ _. Option ℕ) [
                | none ↦ none
                | some score ↦ score_loop secs line (if ltb best score then score else best) fs
              ])
              eq
            ∙ run,
        (
          ground (arith, ge),
          (bound, ((first, rest), IsReached-next secs line n k best f fs eq (ltb best k) reached)),
        ),
      ),
    )

-- If the fragments of a line end inside it, matchScore does not panic. The score is at most 7500, no fragment
-- has a higher one, and one of them has it, unless it is 0.
pub match_score_lem :
    (secs : List DocumentSection) (m : LineMatch)
    → All (IsWithin m.line) m.fragments
    → (n : ℕ) × ((match_score secs m ≡ some n)
        × ((n ≤ 7500)
            × (All (IsBest secs m.line n) m.fragments × IsReached secs m.line n 0 m.fragments)))
unfolding match_score
match_score_lem secs m all =
    let (n, (run, (ge, rest))) = score_loop_lem secs m.line 0 m.fragments (omega arith) all in
    (n, (run, rest))
