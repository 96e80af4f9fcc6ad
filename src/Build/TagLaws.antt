-- ===== src/Build/TagLaws.antt =====
-- build/ctags.go: lines, symbols and sections behind one another.
use mathlib.Core.Path.{subst}
use zoekt_archived.Prelude.{
  ℕ, zero, suc, ◌+◌, ◌%◌, ◌^◌, ◌≤◌, ◌<◌, ◌≡◌, ap, sym, ◌∙◌, inl, inr, true, false, List, [], ◌∷◌,
  ◌++◌, Option, none, some, Bytes, length, get_or, ltb, ◌==◌, if◌then◌else◌, if-intro, Bool-cases,
  arith, take, drop, refl,
}
use zoekt_archived.Bits.Deltas.{DocumentSection}
use zoekt_archived.Eval.Shard.{has_prefix}
use zoekt_archived.Provider.Fill.{shift}
use zoekt_archived.Index.Documents.{new_lines_loop, new_lines_indices}
use zoekt_archived.Builder.Document.{sections_loop}
use zoekt_archived.Provider.OffsetLaws.{drop-drop}
use zoekt_archived.Build.Tags.{index_of, line_ends, line_start}

not_before : (a b : ℕ) → b ≤ a → ltb a b ≡ false
not_before a b le = ground (arith, le)

-- Numbers that ascend from lo, up to hi.
IsAscending : ℕ → ℕ → List ℕ → Type 0
IsAscending lo hi [] = Unit
IsAscending lo hi (x ∷ xs) = (lo ≤ x) × ((x ≤ hi) × IsAscending (x + 1) hi xs)

IsAscending-weaken :
    (lo lo' hi : ℕ) (xs : List ℕ) → lo' ≤ lo → IsAscending lo hi xs → IsAscending lo' hi xs
unfolding IsAscending
IsAscending-weaken lo lo' hi [] le all = tt
IsAscending-weaken lo lo' hi (x ∷ xs) le (low, (high, rest)) = (omega arith, (high, rest))

get_or-IsAscending :
    (lo hi : ℕ) (xs : List ℕ) (k : ℕ)
    → IsAscending lo hi xs
    → k < length xs
    → (lo ≤ get_or xs k 0)
      × ((get_or xs k 0 ≤ hi) × (suc k < length xs → get_or xs k 0 < get_or xs (suc k) 0))
unfolding IsAscending
get_or-IsAscending lo hi [] k all lt = absurd (omega arith)
get_or-IsAscending lo hi (x ∷ []) zero (low, (high, _)) lt =
    (low, (high, λ more. absurd (omega arith)))
get_or-IsAscending lo hi (x ∷ y ∷ xs) zero (low, (high, (next, _))) lt =
    (low, (high, λ more. omega arith))
get_or-IsAscending lo hi (x ∷ xs) (suc k) (low, (high, rest)) lt =
    let (low', (high', up)) = get_or-IsAscending (x + 1) hi xs k rest (omega arith) in
    (omega arith, (high', λ more. up (omega arith)))

new_lines_loop-IsAscending :
    (at : ℕ) (text : Bytes)
    → at + length text < 2 ^ 32
    → IsAscending at
        (at + length text)
        (new_lines_loop at text ++ ((at + length text) % 2 ^ 32) ∷ [])
unfolding new_lines_loop IsAscending
new_lines_loop-IsAscending at [] short = (omega arith, (omega arith, tt))
new_lines_loop-IsAscending at (c ∷ cs) short =
    let sum : at + 1 + length cs ≡ at + suc (length cs) = omega arith in
    let whole : at % 2 ^ 32 ≡ at = omega arith in
    let rest' = new_lines_loop-IsAscending (at + 1) cs (omega arith) in
    let rest : IsAscending (at + 1) (at + suc (length cs))
        (new_lines_loop (at + 1) cs ++ ((at + suc (length cs)) % 2 ^ 32) ∷ []) =
      subst (λ hi. IsAscending (at + 1) hi (new_lines_loop (at + 1) cs ++ (hi % 2 ^ 32) ∷ [])) sum
        rest' in
    if-intro
      (λ xs. IsAscending at (at + suc (length cs)) (xs ++ ((at + suc (length cs)) % 2 ^ 32) ∷ []))
      (c == 10) (at % 2 ^ 32 ∷ new_lines_loop (at + 1) cs) (new_lines_loop (at + 1) cs)
      (λ _.
        subst
          (λ x.
            IsAscending at (at + suc (length cs))
              (x ∷ (new_lines_loop (at + 1) cs ++ ((at + suc (length cs)) % 2 ^ 32) ∷ [])))
          (sym whole) (omega arith, (omega arith, rest)))
      (λ _.
        IsAscending-weaken (at + 1) at (at + suc (length cs))
          (new_lines_loop (at + 1) cs ++ ((at + suc (length cs)) % 2 ^ 32) ∷ []) (omega arith) rest)

line_start-le :
    (hi : ℕ) (nls : List ℕ) (k : ℕ)
    → hi < 2 ^ 32
    → IsAscending 0 hi nls
    → k < length nls
    → (line_start nls k ≤ get_or nls k 0) × (get_or nls k 0 ≤ hi)
unfolding line_start
line_start-le hi nls zero short all lt =
    let (_, (high, _)) = get_or-IsAscending 0 hi nls zero all lt in (omega arith, high)
line_start-le hi nls (suc k) short all lt =
    let (_, (high, _)) = get_or-IsAscending 0 hi nls (suc k) all lt in
    let (_, (_, up)) = get_or-IsAscending 0 hi nls k all (omega arith) in
    let below = up lt in (omega arith, high)

-- A line: where it starts and ends.
pub line_start_lem :
    (content : Bytes) (k : ℕ)
    → length content < 2 ^ 32
    → k < length (line_ends content)
    → (line_start (line_ends content) k ≤ get_or (line_ends content) k 0)
      × (get_or (line_ends content) k 0 ≤ length content)
unfolding line_ends new_lines_indices
line_start_lem content k short lt =
    let all = new_lines_loop-IsAscending 0 content (omega arith) in
    let place : 0 + length content ≡ length content = omega arith in
    let sure : IsAscending 0 (length content) (line_ends content) =
      subst (λ n. IsAscending 0 n (new_lines_loop 0 content ++ (n % 2 ^ 32) ∷ [])) place all in
    line_start-le (length content) (line_ends content) k short sure lt

has_prefix-length : (s p : Bytes) → has_prefix s p ≡ true → length p ≤ length s
unfolding has_prefix
has_prefix-length s [] found = omega arith
has_prefix-length [] (c ∷ p) found = absurd (ground (arith, found))
has_prefix-length (b ∷ s) (c ∷ p) found =
    let later = has_prefix-length s p (ground (arith, found)) in omega (arith, later)

-- A symbol is found inside the text.
unfoldable pub FitsIn : Bytes → Bytes → Option ℕ → Type 0
FitsIn s p none = Unit
FitsIn s p (some k) = (k + length p ≤ length s) × (take (length p) (drop k s) ≡ p)

take-has_prefix : (s p : Bytes) → has_prefix s p ≡ true → take (length p) s ≡ p
unfolding has_prefix
take-has_prefix s [] found = refl
take-has_prefix [] (c ∷ p) found = absurd (ground (arith, found))
take-has_prefix (b ∷ s) (c ∷ p) found =
    let same : b ≡ c = ground (arith, found) in
    let rest = take-has_prefix s p (ground (arith, found)) in λ i. same i ∷ rest i

pub index_of-FitsIn : (s p : Bytes) → FitsIn s p (index_of s p)
unfolding index_of FitsIn
index_of-FitsIn [] p =
    if-intro (FitsIn [] p) (has_prefix [] p) (some 0) none
      (λ found.
        let fits = has_prefix-length [] p found in
        (omega (arith, fits), take-has_prefix [] p found))
      (λ _. tt)
index_of-FitsIn (c ∷ s) p =
    if-intro (FitsIn (c ∷ s) p) (has_prefix (c ∷ s) p) (some 0) (shift (index_of s p))
      (λ found.
        let fits = has_prefix-length (c ∷ s) p found in
        (omega (arith, fits), take-has_prefix (c ∷ s) p found))
      (λ _.
        elim (index_of s p) as (λ o. FitsIn s p o → FitsIn (c ∷ s) p (shift o)) [
          | none ↦ λ fits. tt
          | some k ↦ λ (fits, same). (omega (arith, fits), same)
        ]
          (index_of-FitsIn s p))

take-drop-take :
    (m j n : ℕ) (xs : Bytes) → j + m ≤ n → take m (drop j (take n xs)) ≡ take m (drop j xs)
take-drop-take zero j n xs le = refl
take-drop-take (suc m) zero zero xs le = absurd (omega arith)
take-drop-take (suc m) zero (suc n) [] le = refl
take-drop-take (suc m) zero (suc n) (x ∷ xs) le =
    ap (λ ys. x ∷ ys) (take-drop-take m zero n xs (omega arith))
take-drop-take (suc m) (suc j) zero xs le = absurd (omega arith)
take-drop-take (suc m) (suc j) (suc n) [] le = refl
take-drop-take (suc m) (suc j) (suc n) (x ∷ xs) le = take-drop-take (suc m) j n xs (omega arith)

-- A part of a line, as a part of the content.
pub slice_lem :
    (m k last n off : ℕ) (content : Bytes)
    → last + k + m ≤ n
    → take m (drop k (drop last (take n (drop off content))))
      ≡ take m (drop (off + (last + k)) content)
slice_lem m k last n off content le =
    ap (take m) (drop-drop last k (take n (drop off content)))
    ∙ take-drop-take m (last + k) n (drop off content) (omega arith)
    ∙ ap (take m) (drop-drop off (last + k) content)

pub sections_loop-snoc :
    (e l : ℕ) (secs : List DocumentSection) (s : DocumentSection)
    → sections_loop e secs ≡ (l, false)
    → l ≤ s.start
    → sections_loop e (secs ++ s ∷ []) ≡ (s.end, false)
unfolding sections_loop
sections_loop-snoc e l [] s old le =
    let same : e ≡ l = ap (λ r. r.0) old in
    ap (λ b. if b then (e, true) else (s.end, false)) (not_before s.start e (omega (arith, same)))
sections_loop-snoc e l (t ∷ secs) s old le =
    elim (Bool-cases (ltb t.start e))
      as (λ _.
        (if ltb t.start e then (e, true) else sections_loop t.end (secs ++ s ∷ []))
        ≡ (s.end, false)) [
          | inl before ↦
              let early =
                sym (ap (λ b. if b then (e, true) else sections_loop t.end secs) before) ∙ old in
              let clash : true ≡ false = ap (λ r. r.1) early in absurd (ground (arith, clash))
          | inr behind ↦
              let rest =
                sym (ap (λ b. if b then (e, true) else sections_loop t.end secs) behind) ∙ old in
              ap (λ b. if b then (e, true) else sections_loop t.end (secs ++ s ∷ [])) behind
              ∙ sections_loop-snoc t.end l secs s rest le
        ]
