-- ===== src/Eval/Gather/Merge.antt =====
-- eval.go: the matches that gatherMatches merges.
use zoekt_archived.Prelude.{
  ℕ, ◌+◌, ◌^◌, ◌≤◌, ◌<◌, ◌≡◌, refl, ap, ◌∙◌, Bool, false, ◌&&◌, ◌||◌, List, [], ◌∷◌, ltb, leb,
  if◌then◌else◌, if-intro, arith,
}
use zoekt_archived.MatchTree.{Candidate}
use zoekt_archived.Eval.Gather.{match_end, extend, merge_into, merge_candidates}

-- Ordered by offset from lo on, and each one ends without a wrap-around.
unfoldable pub IsByOffset : ℕ → List Candidate → Type 0
IsByOffset lo [] = Unit
IsByOffset lo (c ∷ cs) =
    (lo ≤ c.byte_offset)
    × ((c.byte_offset + c.byte_match_sz < 2 ^ 32) × IsByOffset c.byte_offset cs)

-- From lo on, and each one starts beyond the end of the one before.
unfoldable pub IsApart : ℕ → List Candidate → Type 0
IsApart lo [] = Unit
IsApart lo (c ∷ cs) = (lo ≤ c.byte_offset) × IsApart (match_end c + 1) cs

-- The byte x lies in one of the matches.
unfoldable pub covers : List Candidate → ℕ → Bool
covers [] x = false
covers (c ∷ cs) x = (leb c.byte_offset x && ltb x (match_end c)) || covers cs x

abbrev Fits : Candidate → Type 0
Fits c = c.byte_offset + c.byte_match_sz < 2 ^ 32

extend-Fits :
    (last c : Candidate)
    → Fits last
    → Fits c
    → match_end last < match_end c
    → Fits (extend last (match_end c))
extend-Fits last c f g lt = omega arith

extend_end :
    (last c : Candidate)
    → Fits last
    → Fits c
    → match_end last < match_end c
    → match_end (extend last (match_end c)) ≡ match_end c
extend_end last c f g lt = omega arith

-- Two intervals that meet, as one.
join_lem :
    (l c e f x : ℕ) (rest : Bool)
    → l ≤ c
    → c ≤ e
    → e < f
    → ((leb l x && ltb x f) || rest) ≡ ((leb l x && ltb x e) || ((leb c x && ltb x f) || rest))
join_lem l c e f x rest p q lt = ground arith

within_lem :
    (l c e f x : ℕ) (rest : Bool)
    → l ≤ c
    → f ≤ e
    → ((leb l x && ltb x e) || rest) ≡ ((leb l x && ltb x e) || ((leb c x && ltb x f) || rest))
within_lem l c e f x rest p q = ground arith

IsByOffset-weaken :
    (lo hi : ℕ) (cs : List Candidate) → hi ≤ lo → IsByOffset lo cs → IsByOffset hi cs
unfolding IsByOffset
IsByOffset-weaken lo hi [] le o = tt
IsByOffset-weaken lo hi (c ∷ cs) le (p, o) = (omega arith, o)

covers-merge_into :
    (last : Candidate) (cs : List Candidate) (x : ℕ)
    → Fits last
    → IsByOffset last.byte_offset cs
    → covers (merge_into last cs) x ≡ covers (last ∷ cs) x
unfolding covers merge_into IsByOffset
covers-merge_into last [] x f o = refl
covers-merge_into last (c ∷ cs) x f (le, (g, o)) =
    let P = λ (r : List Candidate). covers r x ≡ covers (last ∷ c ∷ cs) x in
    let longer = extend last (match_end c) in
    let grown = merge_into longer cs in
    let same = merge_into last cs in
    let near = IsByOffset-weaken c.byte_offset last.byte_offset cs le o in
    if-intro P (leb c.byte_offset (match_end last))
      (if ltb (match_end last) (match_end c) then grown else same) (last ∷ merge_into c cs)
      (λ meets.
        if-intro P (ltb (match_end last) (match_end c)) grown same
          (λ lt.
            let lt' : match_end last < match_end c = ground arith in
            covers-merge_into longer cs x (extend-Fits last c f g lt') near
            ∙ ap (λ e. (leb last.byte_offset x && ltb x e) || covers cs x)
                (extend_end last c f g lt')
            ∙ join_lem last.byte_offset c.byte_offset (match_end last) (match_end c) x (covers cs x)
                le (ground arith) lt')
          (λ ge.
            covers-merge_into last cs x f near
            ∙ within_lem last.byte_offset c.byte_offset (match_end last) (match_end c) x
                (covers cs x) le (ground arith)))
      (λ _.
        ap (λ b. (leb last.byte_offset x && ltb x (match_end last)) || b)
          (covers-merge_into c cs x g o))

merge_into-IsApart :
    (lo : ℕ) (last : Candidate) (cs : List Candidate)
    → lo ≤ last.byte_offset
    → IsByOffset last.byte_offset cs
    → IsApart lo (merge_into last cs)
unfolding merge_into IsByOffset IsApart
merge_into-IsApart lo last [] p o = (p, tt)
merge_into-IsApart lo last (c ∷ cs) p (le, (g, o)) =
    let P = IsApart lo in
    let grown = merge_into (extend last (match_end c)) cs in
    let same = merge_into last cs in
    let near = IsByOffset-weaken c.byte_offset last.byte_offset cs le o in
    if-intro P (leb c.byte_offset (match_end last))
      (if ltb (match_end last) (match_end c) then grown else same) (last ∷ merge_into c cs)
      (λ _.
        if-intro P (ltb (match_end last) (match_end c)) grown same
          (λ _. merge_into-IsApart lo (extend last (match_end c)) cs p near)
          (λ _. merge_into-IsApart lo last cs p near))
      (λ far. (p, merge_into-IsApart (match_end last + 1) c cs (ground arith) o))

-- On candidates that are sorted by offset and end below 2^32, the merged matches come in order, each
-- beyond the end of the one before, and cover exactly the bytes that the candidates cover.
pub merge_candidates_lem :
    (cs : List Candidate)
    → IsByOffset 0 cs
    → IsApart 0 (merge_candidates cs) × ((x : ℕ) → covers (merge_candidates cs) x ≡ covers cs x)
unfolding merge_candidates IsByOffset IsApart
merge_candidates_lem [] o = (tt, λ x. refl)
merge_candidates_lem (c ∷ cs) (p, (f, o)) =
    (merge_into-IsApart 0 c cs p o, λ x. covers-merge_into c cs x f o)
