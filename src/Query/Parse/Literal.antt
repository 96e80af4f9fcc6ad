-- ===== src/Query/Parse/Literal.antt =====
-- query/parse.go: parseStringLiteral and consumeKeyword.
use zoekt_archived.Prelude.{
  ℕ, zero, suc, ◌-◌, Bool, true, false, ◌&&◌, ◌||◌, Option, none, some, [], ◌∷◌, ◌++◌, Bytes,
  length, drop, ◌==◌, if◌then◌else◌,
}
use zoekt_archived.Query.Parse.Outcome.{
  Outcome, ok, err, out_of_fuel, missing_char, unterminated, ◌>>=◌,
}

-- The loop: the literal, and what is left after the closing quote.
unfoldable pub literal_loop : Bytes → Bytes → Outcome (Bytes × Bytes)
literal_loop lit [] = err unterminated
literal_loop lit (c ∷ []) =
    if c == b'"' then ok (lit, []) else if c == b'\\' then err missing_char else err unterminated
literal_loop lit (c ∷ d ∷ left) =
    let escaped = literal_loop (lit ++ d ∷ []) left in
    let plain = literal_loop (lit ++ c ∷ []) (d ∷ left) in
    if c == b'"' then ok (lit, d ∷ left) else if c == b'\\' then escaped else plain

-- The literal, and the number of bytes consumed. The first byte is the opening quote.
unfoldable pub parse_string_literal : Bytes → Outcome (Bytes × ℕ)
unfolding literal_loop
parse_string_literal in' = do
  (lit, left) ← literal_loop [] (drop 1 in')
  ok (lit, length in' - length left)

-- bytes.HasPrefix, with the prefix first.
unfoldable pub has_prefix : Bytes → Bytes → Bool
has_prefix [] s = true
has_prefix (p ∷ ps) [] = false
has_prefix (p ∷ ps) (c ∷ s) = (p == c) && has_prefix ps s

unfoldable pub is_space : ℕ → Bool
is_space c = (c == b' ') || (c == b'\t')

-- The loop of consumeKeyword: the argument, and what is left. A quoted part takes the place of what was
-- read before it.
unfoldable pub keyword_loop : ℕ → Bytes → Bytes → Outcome (Bytes × Bytes)
unfolding is_space parse_string_literal
keyword_loop fuel arg [] = ok (arg, [])
keyword_loop zero arg (c ∷ left) = out_of_fuel
keyword_loop (suc fuel) arg (c ∷ left) =
    let quoted = do
      (lit, n) ← parse_string_literal (c ∷ left)
      keyword_loop fuel lit (drop n (c ∷ left))
    in let plain = keyword_loop fuel (arg ++ c ∷ []) left in
      if c == b'"' then quoted else if is_space c then ok (arg, c ∷ left) else plain

-- `none` if the keyword is not there.
unfoldable pub consume_keyword : Bytes → Bytes → Outcome (Option (Bytes × ℕ))
unfolding has_prefix keyword_loop
consume_keyword in' kw =
    let matched = do
      (arg, left) ← keyword_loop (length in') [] (drop (length kw) in')
      ok (some (arg, length in' - length left))
    in if has_prefix kw in' then matched else ok none
