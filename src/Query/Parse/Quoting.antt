-- ===== src/Query/Parse/Quoting.antt =====
-- query/parse.go: a quoted string is read back by parseStringLiteral.
use zoekt_archived.Prelude.{
  ℕ, suc, ◌-◌, ◌<◌, ◌≡◌, ap, sym, ◌∙◌, Bool, false, ◌||◌, [], ◌∷◌, ◌++◌, append_assoc, append-nil,
  Bytes, length, length-append, ◌==◌, if◌then◌else◌, arith, Bool-cases, inl, inr,
}
use zoekt_archived.Query.Parse.Outcome.{ok, ◌>>=◌}
use zoekt_archived.Query.Parse.Literal.{literal_loop, parse_string_literal}

is_escaped : ℕ → Bool
is_escaped c = (c == b'"') || (c == b'\\')

-- The literal with a backslash before each quote and backslash, and in quotes.
unfoldable pub escape : Bytes → Bytes
unfolding is_escaped
escape [] = []
escape (c ∷ cs) = let rest = escape cs in if is_escaped c then b'\\' ∷ c ∷ rest else c ∷ rest

unfoldable pub quote : Bytes → Bytes
unfolding escape
quote s = b'"' ∷ (escape s ++ b'"' ∷ [])

plain_step :
    (c : ℕ) (lit left : Bytes)
    → 0 < length left
    → is_escaped c ≡ false
    → literal_loop lit (c ∷ left) ≡ literal_loop (lit ++ c ∷ []) left
unfolding literal_loop is_escaped
plain_step c lit [] h e = absurd (omega arith)
plain_step c lit (d ∷ left) h e = ground arith

closed_size : (s rest : Bytes) → 0 < length (escape s ++ b'"' ∷ rest)
closed_size s rest = omega (arith, length-append (escape s) (b'"' ∷ rest))

literal_loop-escape :
    (lit s rest : Bytes) → literal_loop lit (escape s ++ b'"' ∷ rest) ≡ ok (lit ++ s, rest)
unfolding escape literal_loop
literal_loop-escape lit [] [] = ap (λ l. ok (l, [])) (sym (append-nil lit))
literal_loop-escape lit [] (d ∷ rest) = ap (λ l. ok (l, d ∷ rest)) (sym (append-nil lit))
literal_loop-escape lit (c ∷ s) rest =
    let later : literal_loop (lit ++ c ∷ []) (escape s ++ b'"' ∷ rest) ≡ ok (lit ++ c ∷ s, rest) =
      literal_loop-escape (lit ++ c ∷ []) s rest
      ∙ ap (λ l. ok (l, rest)) (append_assoc lit (c ∷ []) s) in
    elim (Bool-cases (is_escaped c)) [
      | inl e ↦ rw e later
      | inr e ↦ rw e (plain_step c lit (escape s ++ b'"' ∷ rest) (closed_size s rest) e ∙ later)
    ]

-- parseStringLiteral reads a quoted string back, and consumes it up to its closing quote.
pub parse_string_literal-quote :
    (s rest : Bytes) → parse_string_literal (quote s ++ rest) ≡ ok (s, length (quote s))
unfolding parse_string_literal quote
parse_string_literal-quote s rest =
    let shape : (escape s ++ b'"' ∷ []) ++ rest ≡ escape s ++ b'"' ∷ rest =
      append_assoc (escape s) (b'"' ∷ []) rest in
    let read : literal_loop [] ((escape s ++ b'"' ∷ []) ++ rest) ≡ ok (s, rest) =
      ap (literal_loop []) shape ∙ literal_loop-escape [] s rest in
    ap
      (λ m. m >>= λ (r : Bytes × Bytes).
        ok (r.0, suc (length ((escape s ++ b'"' ∷ []) ++ rest)) - length r.1))
      read
    ∙ ap (λ n. ok (s, n)) (omega (arith, length-append (escape s ++ b'"' ∷ []) rest))
