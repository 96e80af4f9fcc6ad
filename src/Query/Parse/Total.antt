-- ===== src/Query/Parse/Total.antt =====
-- query/parse.go: the parser always returns a query or an error.
use zoekt_archived.Prelude.{
  ℕ, ◌-◌, ◌≤◌, ◌<◌, ◌≡◌, refl, ap, ◌⊎◌, inl, inr, Bool, true, false, ◌&&◌, ◌||◌, Option, none, some,
  List, [], ◌∷◌, ◌++◌, Bytes, length, drop, arith,
}
use zoekt_archived.Query.Syntax.{Q}
use zoekt_archived.Query.Parse.Outcome.{
  Outcome, ok, ◌>>=◌, Returns, Returns->>=, Returns-weaken, Returns-if,
}
use zoekt_archived.Query.Parse.Token.{
  Token, TokenType, tok_text, tok_file, tok_repo, tok_case, tok_branch, tok_paren_open,
  tok_paren_close, tok_error, tok_negate, tok_regex, tok_or, tok_content, tok_lang, tok_sym,
  next_token, is_nil, bytes_eq,
}
use zoekt_archived.Query.Parse.Case.{yes_flavor, no_flavor, auto_flavor}
use zoekt_archived.Query.Parse.Progress.{length-drop, IsFrontOrNone, next_token_lem}
use zoekt_archived.Query.Parse.Expr

abbrev pub Anything : {A : Type 0} → A → Type 0
Anything a = Unit

pub skip_spaces-length : (bs : Bytes) → length (Expr.skip_spaces bs) ≤ length bs
unfolding Expr.skip_spaces
skip_spaces-length [] = omega arith
skip_spaces-length (c ∷ cs) = let rest = skip_spaces-length cs in ground arith

operators_loop_lem :
    (top cur : List Q) (seen : Bool) (qs : List Q)
    → Returns Anything (Expr.operators_loop top cur seen qs)
unfolding Expr.operators_loop
operators_loop_lem top cur seen [] =
    Returns-if Anything (seen && Expr.is_none cur) _ _ (λ _. tt) (λ _. tt)
operators_loop_lem top cur seen (q ∷ qs) =
    Returns-if Anything (Expr.is_or_operator q) _ _
      (λ _.
        Returns-if Anything (Expr.is_none cur) _ _ (λ _. tt) (λ _. operators_loop_lem _ [] true qs))
      (λ _. operators_loop_lem top (cur ++ q ∷ []) seen qs)

pub parse_operators_lem : (qs : List Q) → Returns Anything (Expr.parse_operators qs)
unfolding Expr.parse_operators
parse_operators_lem qs = operators_loop_lem [] [] false qs

module _ (syntax : Expr.RegexpSyntax) where
  regexp_query_lem :
      (text : Bytes) (content file : Bool)
      → Returns Anything (Expr.regexp_query syntax text content file)
  unfolding Expr.regexp_query
  regexp_query_lem text content file =
      elim (syntax.re_parse text)
        as (λ r. Returns Anything (Expr.query_of_regexp syntax content file r)) [
          | none ↦ tt
          | some r ↦ tt
        ]

  leaf_query_lem :
      (kind : TokenType) (text : Bytes) → Returns Anything (Expr.leaf_query syntax kind text)
  unfolding Expr.leaf_query
  leaf_query_lem tok_text text = regexp_query_lem text false false
  leaf_query_lem tok_regex text = regexp_query_lem text false false
  leaf_query_lem tok_file text = regexp_query_lem text false true
  leaf_query_lem tok_content text = regexp_query_lem text true false
  leaf_query_lem tok_case text =
      Returns-if {A = Q} Anything
        (bytes_eq text yes_flavor || (bytes_eq text no_flavor || bytes_eq text auto_flavor)) _ _
        (λ _. tt) (λ _. tt)
  leaf_query_lem tok_sym text = Returns-if Anything (is_nil text) _ _ (λ _. tt) (λ _. tt)
  leaf_query_lem tok_repo text = tt
  leaf_query_lem tok_branch text = tt
  leaf_query_lem tok_lang text = tt
  leaf_query_lem tok_paren_open text = tt
  leaf_query_lem tok_paren_close text = tt
  leaf_query_lem tok_error text = tt
  leaf_query_lem tok_negate text = tt
  leaf_query_lem tok_or text = tt

  -- A query takes at least a byte, unless it is nil, and no more than there are.
  abbrev pub ExprOk : Bytes → Q × ℕ → Type 0
  ExprOk in' (q, n) = (n ≤ length in') × ((Expr.is_absent q ≡ true) ⊎ (0 < n))

  abbrev pub ExprsOk : Bytes → List Q × ℕ → Type 0
  ExprsOk in' (qs, n) = n ≤ length in'

  abbrev pub LoopOk : Bytes → List Q × Bytes → Type 0
  LoopOk in' (qs, left) = length left ≤ length in'

  close_of_type_lem :
      (qs : List Q) (left : Bytes) (k : TokenType)
      → Returns (λ (r : Q × Bytes). r.1 ≡ left) (Expr.close_of_type syntax qs left k)
  unfolding Expr.close_of_type
  close_of_type_lem qs left tok_paren_close =
      Returns->>= Anything (λ (r : Q × Bytes). r.1 ≡ left) (Expr.parse_operators qs)
        (λ q. ok (q, left)) (parse_operators_lem qs) (λ q _. refl)
  close_of_type_lem qs left _ = tt

  close_paren_lem :
      (qs : List Q) (b : Bytes) (t : Option Token)
      → Returns (λ (r : Q × Bytes). length r.1 ≤ length b) (Expr.close_paren syntax qs b t)
  unfolding Expr.close_paren
  close_paren_lem qs b none = tt
  close_paren_lem qs b (some t) =
      Returns-weaken _ (λ (r : Q × Bytes). length r.1 ≤ length b)
        (Expr.close_of_type syntax qs (drop (length t.input) b) t.kind)
        (λ r e. omega (arith, ap length e, length-drop (length t.input) b))
        (close_of_type_lem qs (drop (length t.input) b) t.kind)

  -- The two parsers that a step calls, on shorter inputs.
  module _ (expr : Bytes → Outcome (Q × ℕ)) (exprs : Bytes → Outcome (List Q × ℕ)) (in' : Bytes)
      (expr_ok : (b : Bytes) → length b < length in' → Returns (ExprOk b) (expr b))
      (exprs_ok : (b : Bytes) → length b < length in' → Returns (ExprsOk b) (exprs b)) where
    paren_lem :
        (b text : Bytes)
        → length b < length in'
        → Returns (ExprOk in') (Expr.expr_of_type syntax expr exprs in' b text tok_paren_open)
    unfolding Expr.expr_of_type
    paren_lem b text lt =
        Returns->>= (ExprsOk b) (ExprOk in') (exprs b) _ (exprs_ok b lt) (λ (qs, n) le.
          Returns->>= (IsFrontOrNone (drop n b)) (ExprOk in') (next_token (drop n b)) _
            (next_token_lem (drop n b))
            (λ t _.
              Returns->>= (λ (r : Q × Bytes). length r.1 ≤ length (drop n b)) (ExprOk in')
                (Expr.close_paren syntax qs (drop n b) t) _ (close_paren_lem qs (drop n b) t)
                (λ (q, left) shorter.
                  (omega arith, inr (omega (arith, length-drop n b, shorter, lt))))))

    negate_lem :
        (b text : Bytes)
        → length b < length in'
        → Returns (ExprOk in') (Expr.expr_of_type syntax expr exprs in' b text tok_negate)
    unfolding Expr.expr_of_type
    negate_lem b text lt =
        Returns->>= (ExprOk b) (ExprOk in') (expr b) _ (expr_ok b lt)
          (λ (q, n) _. (omega arith, inr (omega (arith, length-drop n b, lt))))

    leaf_lem :
        (b text : Bytes) (kind : TokenType)
        → length b < length in'
        → Returns
            (ExprOk in')
            (Expr.leaf_query syntax kind text >>= λ q. ok (q, length in' - length b))
    leaf_lem b text kind lt =
        Returns->>= Anything (ExprOk in') (Expr.leaf_query syntax kind text) _
          (leaf_query_lem kind text) (λ q _. (omega arith, inr (omega arith)))

    expr_of_type_lem :
        (b text : Bytes) (kind : TokenType)
        → length b < length in'
        → Returns (ExprOk in') (Expr.expr_of_type syntax expr exprs in' b text kind)
    unfolding Expr.expr_of_type
    expr_of_type_lem b text tok_paren_open lt = paren_lem b text lt
    expr_of_type_lem b text tok_negate lt = negate_lem b text lt
    expr_of_type_lem b text kind lt = leaf_lem b text kind lt

    pub expr_step_lem : Returns (ExprOk in') (Expr.expr_step syntax expr exprs in')
    unfolding Expr.expr_step Expr.is_absent
    expr_step_lem =
        Returns->>= (IsFrontOrNone (Expr.skip_spaces in')) (ExprOk in')
          (next_token (Expr.skip_spaces in')) _ (next_token_lem (Expr.skip_spaces in')) token_lem
      where
        token_lem :
            (t : Option Token)
            → IsFrontOrNone (Expr.skip_spaces in') t
            → Returns
                (ExprOk in')
                (Expr.expr_of_token syntax expr exprs in' (Expr.skip_spaces in') t)
        token_lem none _ = (omega arith, inl refl)
        token_lem (some t) (pos, (le, _)) = expr_of_type_lem _ t.text t.kind (
            omega (
              arith,
              length-drop (length t.input) (Expr.skip_spaces in'),
              skip_spaces-length in',
              pos,
              le,
            ))
