-- ===== src/Query/Parse/Ends.antt =====
-- query/parse.go: the loop of parseExprList ends, and Parse returns a query or an error.
use zoekt_archived.Prelude.{
  ℕ, zero, suc, ◌+◌, ◌-◌, ◌*◌, ◌≤◌, ◌<◌, ◌≡◌, refl, inl, inr, ◌⊎◌, true, false, Option, none, some,
  List, [], ◌∷◌, ◌++◌, Bytes, length, drop, if◌then◌else◌, arith,
}
use zoekt_archived.Query.Syntax.{Q, atom, or_operator}
use zoekt_archived.Query.Parse.Outcome.{
  Outcome, ok, err, out_of_fuel, ◌>>=◌, Returns, Returns->>=, Returns-if, Returns-weaken,
}
use zoekt_archived.Query.Parse.Token.{
  Token, TokenType, tok_paren_close, tok_error, tok_or, next_token,
}
use zoekt_archived.Query.Parse.Progress.{length-drop, IsFrontOrNone, next_token_lem}
use zoekt_archived.Query.Parse.Total.{
  Anything, skip_spaces-length, parse_operators_lem, ExprOk, ExprsOk, LoopOk, expr_step_lem,
}
use zoekt_archived.Query.Parse.Expr

taken : (q : Q) (n : ℕ) → (Expr.is_absent q ≡ true) ⊎ (0 < n) → Expr.is_absent q ≡ false → 0 < n
taken q n (inl e) e' = absurd (ground arith)
taken q n (inr h) e' = h

module _ (syntax : Expr.RegexpSyntax) where
  module _ (expr : Bytes → Outcome (Q × ℕ)) (loop : List Q → Bytes → Outcome (List Q × Bytes))
      (in' : Bytes)
      (expr_ok : (b : Bytes) → length b ≤ length in' → Returns (ExprOk syntax b) (expr b))
      (loop_ok : (qs : List Q) (b : Bytes)
        → length b < length in'
        → Returns (LoopOk syntax b) (loop qs b)) where
    again_lem :
        (qs : List Q) (b : Bytes) (n : ℕ)
        → length b ≤ length in'
        → 0 < n
        → n ≤ length b
        → Returns (LoopOk syntax in') (loop qs (drop n b))
    again_lem qs b n le pos short =
        Returns-weaken (LoopOk syntax (drop n b)) (LoopOk syntax in') (loop qs (drop n b))
          (λ r shorter. omega (arith, shorter, length-drop n b, le))
          (loop_ok qs (drop n b) (omega (arith, length-drop n b, le, pos, short)))

    other_lem :
        (qs : List Q) (b : Bytes)
        → length b ≤ length in'
        → Returns (LoopOk syntax in') (
            expr b >>= λ (q, n).
            if Expr.is_absent q then ok (qs, b) else loop (qs ++ q ∷ []) (drop n b))
    other_lem qs b le =
        Returns->>= (ExprOk syntax b) (LoopOk syntax in') (expr b) _ (expr_ok b le)
          (λ (q, n) (short, more).
            Returns-if (LoopOk syntax in') (Expr.is_absent q) _ _ (λ _. le)
              (λ e. again_lem (qs ++ q ∷ []) b n le (taken q n more e) short))

    round_of_type_lem :
        (qs : List Q) (b : Bytes) (k : TokenType) (n : ℕ)
        → length b ≤ length in'
        → (k ≡ tok_or → (0 < n) × (n ≤ length b))
        → Returns (LoopOk syntax in') (Expr.round_of_type syntax expr loop qs b k n)
    unfolding Expr.round_of_type
    round_of_type_lem qs b tok_paren_close n le size = le
    round_of_type_lem qs b tok_or n le size =
        let (pos, short) = size refl in again_lem (qs ++ atom or_operator ∷ []) b n le pos short
    round_of_type_lem qs b k n le size = other_lem qs b le

    round_of_token_lem :
        (qs : List Q) (b : Bytes) (t : Outcome (Option Token))
        → length b ≤ length in'
        → Returns (IsFrontOrNone b) t
        → Returns (LoopOk syntax in') (Expr.round_of_token syntax expr loop qs b t)
    round_of_token_lem qs b (ok none) le front = round_of_type_lem qs b tok_error 0 le (λ e. cc)
    round_of_token_lem qs b (ok (some t)) le (pos, (short, _)) =
        round_of_type_lem qs b t.kind (length t.input) le (λ _. (pos, short))
    round_of_token_lem qs b (err e) le front = round_of_type_lem qs b tok_error 0 le (λ e. cc)
    round_of_token_lem qs b out_of_fuel le front = absurd front

    list_round_lem :
        (qs : List Q) → Returns (LoopOk syntax in') (Expr.list_round syntax expr loop qs in')
    unfolding Expr.list_round
    list_round_lem qs =
        round_of_token_lem qs (Expr.skip_spaces in') (next_token (Expr.skip_spaces in'))
          (skip_spaces-length in') (next_token_lem (Expr.skip_spaces in'))

  finish_exprs_lem :
      (in' : Bytes) (r : Outcome (List Q × Bytes))
      → Returns (LoopOk syntax in') r
      → Returns (ExprsOk syntax in') (Expr.finish_exprs syntax in' r)
  finish_exprs_lem in' r h =
      Returns->>= (LoopOk syntax in') (ExprsOk syntax in') r
        (λ r. ok (Expr.finish_list syntax r.0, length in' - length r.1)) h (λ r le. omega arith)

  -- Both parsers, with enough fuel.
  mutual
    unfolding Expr.parse_expr Expr.list_loop

    parse_expr-ok :
        (fuel : ℕ) (in' : Bytes)
        → 2 * length in' + 1 ≤ fuel
        → Returns (ExprOk syntax in') (Expr.parse_expr syntax fuel in')
    parse_expr-ok zero in' h = absurd (omega arith)
    parse_expr-ok (suc fuel) in' h =
        expr_step_lem syntax (Expr.parse_expr syntax fuel)
          (λ b. Expr.finish_exprs syntax b (Expr.list_loop syntax fuel [] b)) in'
          (λ b lt. parse_expr-ok fuel b (omega arith))
          (λ b lt.
            finish_exprs_lem b (Expr.list_loop syntax fuel [] b)
              (list_loop-ok fuel [] b (omega arith)))

    list_loop-ok :
        (fuel : ℕ) (qs : List Q) (in' : Bytes)
        → 2 * length in' + 2 ≤ fuel
        → Returns (LoopOk syntax in') (Expr.list_loop syntax fuel qs in')
    list_loop-ok fuel qs [] h = omega arith
    list_loop-ok zero qs (c ∷ cs) h = absurd (omega arith)
    list_loop-ok (suc fuel) qs (c ∷ cs) h =
        list_round_lem (Expr.parse_expr syntax fuel) (Expr.list_loop syntax fuel) (c ∷ cs)
          (λ b le. parse_expr-ok fuel b (omega arith))
          (λ qs' b lt. list_loop-ok fuel qs' b (omega arith)) qs

  -- parseExpr returns an error, or a query with the number of bytes that it takes: no more than there
  -- are, and at least one unless the query is nil. The fuel is twice the length of the input and one.
  pub parse_expr_lem :
      (fuel : ℕ) (in' : Bytes)
      → 2 * length in' + 1 ≤ fuel
      → Returns (ExprOk syntax in') (Expr.parse_expr syntax fuel in')
  parse_expr_lem fuel in' h = parse_expr-ok fuel in' h

  -- Parse returns a query or an error on every text: it never runs for ever.
  pub parse_total : (text : Bytes) → Returns Anything (Expr.parse syntax text)
  unfolding Expr.parse Expr.parse_expr_list
  parse_total text =
      Returns->>= (ExprsOk syntax text) Anything
        (Expr.finish_exprs syntax text (Expr.list_loop syntax (2 * length text + 2) [] text)) _
        (finish_exprs_lem text _ (list_loop-ok (2 * length text + 2) [] text (omega arith)))
        (λ r _.
          Returns->>= Anything Anything (Expr.parse_operators r.0) _ (parse_operators_lem r.0)
            (λ q _. tt))
