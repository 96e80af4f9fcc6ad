-- ===== src/Query/Parse/Progress.antt =====
-- query/parse.go: every token and literal takes a part of the input, and none of it twice.
use zoekt_archived.Prelude.{
  ℕ, zero, suc, ◌+◌, ◌-◌, ◌≤◌, ◌<◌, ◌≡◌, refl, ap, sym, ◌∙◌, ◌⊎◌, inl, inr, false, ◌&&◌, Option,
  none, some, List, [], ◌∷◌, ◌++◌, Bytes, length, take, drop, ◌==◌, if◌then◌else◌, if-intro, arith,
}
use zoekt_archived.Query.Parse.Outcome.{
  Outcome, ok, err, ◌>>=◌, Returns, Returns->>=, Returns-weaken, Returns-if, lone_backslash,
}
use zoekt_archived.Query.Parse.Literal.{literal_loop, parse_string_literal, has_prefix}
use zoekt_archived.Query.Parse.Token.{
  Token, TokenType, Scanned, scan_loop, finish_token, next_token, set_type, apply_prefix, word_type,
  prefixes, is_nil, tok_text, is_break,
}

pub length-drop : {A : Type 0} (n : ℕ) (xs : List A) → length (drop n xs) ≡ length xs - n
length-drop zero xs = omega arith
length-drop (suc n) [] = omega arith
length-drop (suc n) (x ∷ xs) = omega (arith, length-drop n xs)

pub length-take : {A : Type 0} (n : ℕ) (xs : List A) → n ≤ length xs → length (take n xs) ≡ n
length-take zero xs h = refl
length-take (suc n) [] h = absurd (omega arith)
length-take (suc n) (x ∷ xs) h = omega (arith, length-take n xs (omega arith))

literal_loop_lem :
    (k : ℕ) (lit left : Bytes)
    → length left ≤ k
    → Returns (λ (r : Bytes × Bytes). length r.1 < k) (literal_loop lit left)
unfolding literal_loop
literal_loop_lem k lit [] h = tt
literal_loop_lem k lit (c ∷ []) h = ground arith
literal_loop_lem k lit (c ∷ d ∷ left) h =
    let P = Returns (λ (r : Bytes × Bytes). length r.1 < k) in
    let escaped = literal_loop (lit ++ d ∷ []) left in
    let plain = literal_loop (lit ++ c ∷ []) (d ∷ left) in
    if-intro P (c == b'"') (ok (lit, d ∷ left)) (if c == b'\\' then escaped else plain)
      (λ _. omega arith)
      (λ _.
        if-intro P (c == b'\\') escaped plain
          (λ _. literal_loop_lem k (lit ++ d ∷ []) left (omega arith))
          (λ _. literal_loop_lem k (lit ++ c ∷ []) (d ∷ left) (omega arith)))

-- A literal takes a byte at least, and no more than there are.
pub parse_string_literal_size :
    (c : ℕ) (cs : Bytes)
    → Returns
        (λ (r : Bytes × ℕ). (0 < r.1) × (r.1 ≤ suc (length cs)))
        (parse_string_literal (c ∷ cs))
unfolding parse_string_literal
parse_string_literal_size c cs =
    Returns->>= (λ (r : Bytes × Bytes). length r.1 < suc (length cs))
      (λ (r : Bytes × ℕ). (0 < r.1) × (r.1 ≤ suc (length cs))) (literal_loop [] cs)
      (λ r. ok (r.0, suc (length cs) - length r.1))
      (literal_loop_lem (suc (length cs)) [] cs (omega arith)) (λ r h. (omega arith, omega arith))

-- What a scan from `text` and `left` leaves: nothing new, or less input.
abbrev pub Scans : Bytes → Bytes → Scanned → Type 0
Scans text left s =
    (length s.left ≤ length left) × ((length s.left < length left) ⊎ (s.text ≡ text))

Scans-further :
    (text text' left left' : Bytes) (s : Scanned)
    → length left' < length left
    → Scans text' left' s
    → Scans text left s
Scans-further text text' left left' s lt (le, _) = (omega arith, inl (omega arith))

-- The scan from any input that is no longer than the fuel.
abbrev ScansAll : ℕ → Type 0
ScansAll fuel =
    (parens : ℕ) (text left : Bytes)
    → length left ≤ fuel
    → Returns (Scans text left) (scan_loop fuel parens text left)

further_lem :
    (fuel parens : ℕ) (text text' left left' : Bytes)
    → ScansAll fuel
    → length left ≤ suc fuel
    → length left' < length left
    → Returns (Scans text left) (scan_loop fuel parens text' left')
further_lem fuel parens text text' left left' rec h lt =
    Returns-weaken (Scans text' left') (Scans text left) (scan_loop fuel parens text' left')
      (λ s. Scans-further text text' left left' s lt) (rec parens text' left' (omega arith))

escape_lem :
    (fuel parens c : ℕ) (text left : Bytes)
    → ScansAll fuel
    → length left ≤ fuel
    → Returns (Scans text (c ∷ left)) (elim left as (λ _. Outcome Scanned) [
      | [] ↦ err lone_backslash
      | d ∷ rest ↦ scan_loop fuel parens (text ++ c ∷ d ∷ []) rest
    ])
escape_lem fuel parens c text [] rec h = tt
escape_lem fuel parens c text (d ∷ rest) rec h =
    further_lem fuel parens text (text ++ c ∷ d ∷ []) (c ∷ d ∷ rest) rest rec (omega arith)
      (omega arith)

quote_lem :
    (fuel parens c : ℕ) (text left : Bytes)
    → ScansAll fuel
    → length left ≤ fuel
    → Returns (Scans text (c ∷ left)) (do
      (lit, n) ← parse_string_literal (c ∷ left)
      scan_loop fuel parens (text ++ lit) (drop n (c ∷ left)))
quote_lem fuel parens c text left rec h =
    Returns->>= (λ (r : Bytes × ℕ). (0 < r.1) × (r.1 ≤ suc (length left))) (Scans text (c ∷ left))
      (parse_string_literal (c ∷ left))
      (λ r. scan_loop fuel parens (text ++ r.0) (drop r.1 (c ∷ left)))
      (parse_string_literal_size c left)
      (λ r size.
        further_lem fuel parens text (text ++ r.0) (c ∷ left) (drop r.1 (c ∷ left)) rec
          (omega arith) (omega (arith, length-drop r.1 (c ∷ left), size)))

scan_loop_lem : (fuel : ℕ) → ScansAll fuel
unfolding scan_loop
scan_loop_lem fuel parens text [] h = (omega arith, inr refl)
scan_loop_lem zero parens text (c ∷ left) h = absurd (omega arith)
scan_loop_lem (suc fuel) parens text (c ∷ left) h =
    let P = Scans text (c ∷ left) in
    let on = λ (n : ℕ).
      further_lem fuel n text (text ++ c ∷ []) (c ∷ left) left (scan_loop_lem fuel) h
        (omega arith) in
    Returns-if P (c == b'(') _ _ (λ _. on (parens + 1))
      (λ _.
        Returns-if P (c == b')') _ _
          (λ _.
            Returns-if P (parens == 0) _ _
              (λ _.
                Returns-if P (is_nil text) _ _ (λ _. (omega arith, inl (omega arith)))
                  (λ _. (omega arith, inr refl)))
              (λ _. on (parens - 1)))
          (λ _.
            Returns-if P (c == b'"') _ _
              (λ _. quote_lem fuel parens c text left (scan_loop_lem fuel) (omega arith))
              (λ _.
                Returns-if P (c == b'\\') _ _
                  (λ _. escape_lem fuel parens c text left (scan_loop_lem fuel) (omega arith))
                  (λ _.
                    Returns-if P (is_break c) _ _ (λ _. (omega arith, inr refl))
                      (λ _. on parens)))))

-- The token's input is a part of the front of the input, and not empty.
abbrev pub IsFront : Bytes → Token → Type 0
IsFront in' t =
    (0 < length t.input) × ((length t.input ≤ length in') × (t.input ≡ take (length t.input) in'))

abbrev pub IsFrontOrNone : Bytes → Option Token → Type 0
IsFrontOrNone in' none = Unit
IsFrontOrNone in' (some t) = IsFront in' t

apply_prefix-input :
    (ps : List (Bytes × TokenType)) (t : Token) → (apply_prefix ps t).input ≡ t.input
unfolding apply_prefix
apply_prefix-input [] t = refl
apply_prefix-input ((p, k) ∷ ps) t = ground (arith, apply_prefix-input ps t)

word_type-input : (t : Token) → (word_type t).input ≡ t.input
unfolding word_type
word_type-input t = ground arith

set_type-input : (t : Token) → (set_type t).input ≡ t.input
unfolding set_type
set_type-input t = apply_prefix-input prefixes (word_type t) ∙ word_type-input t

IsFront-take :
    (k : ℕ) (in' : Bytes) (t : Token)
    → 0 < k
    → k ≤ length in'
    → t.input ≡ take k in'
    → IsFront in' (set_type t)
IsFront-take k in' t pos le e =
    let whole = set_type-input t ∙ e in
    let size : length (set_type t).input ≡ k = ap length whole ∙ length-take k in' le in
    (omega arith, (omega arith, whole ∙ ap (λ n. take n in') (sym size)))

taken_lem :
    (c : ℕ) (cs : Bytes) (s : Scanned)
    → (length s.left < length (c ∷ cs)) ⊎ (s.text ≡ [])
    → is_nil s.text ≡ false
    → 0 < suc (length cs) - length s.left
taken_lem c cs s (inl lt) e = omega arith
taken_lem c cs s (inr none_new) e = let gone = ap is_nil none_new in absurd (ground arith)

finish_token_lem :
    (c : ℕ) (cs : Bytes) (s : Scanned)
    → Scans [] (c ∷ cs) s
    → IsFrontOrNone (c ∷ cs) (finish_token (c ∷ cs) s)
unfolding finish_token
finish_token_lem c cs s (le, more) =
    let P = IsFrontOrNone (c ∷ cs) in
    let n = suc (length cs) - length s.left in
    let whole : Token = record { kind = tok_text; text = s.text; input = take n (c ∷ cs) } in
    let paren : Token = record { kind = tok_text; text = take 1 s.text; input = take 1 (c ∷ cs) } in
    if-intro P (is_nil s.text) none
      (if s.found_space && has_prefix (b'(' ∷ []) s.text
        then some (set_type paren)
        else some (set_type whole))
      (λ _. tt)
      (λ e.
        if-intro P (s.found_space && has_prefix (b'(' ∷ []) s.text) (some (set_type paren))
          (some (set_type whole))
          (λ _. IsFront-take 1 (c ∷ cs) paren (omega arith) (omega arith) refl)
          (λ _. IsFront-take n (c ∷ cs) whole (taken_lem c cs s more e) (omega arith) refl))

-- nextToken returns an error, no token, or a token whose input is a front part of the input that is not
-- empty.
pub next_token_lem : (in' : Bytes) → Returns (IsFrontOrNone in') (next_token in')
unfolding next_token
next_token_lem [] = tt
next_token_lem (c ∷ cs) =
    Returns-if (IsFrontOrNone (c ∷ cs)) (c == b'-') _ _ (λ _. (omega arith, (omega arith, refl)))
      (λ _.
        Returns->>= (Scans [] (c ∷ cs)) (IsFrontOrNone (c ∷ cs))
          (scan_loop (suc (length cs)) 0 [] (c ∷ cs)) (λ s. ok (finish_token (c ∷ cs) s))
          (scan_loop_lem (suc (length cs)) 0 [] (c ∷ cs) (omega arith)) (finish_token_lem c cs))
