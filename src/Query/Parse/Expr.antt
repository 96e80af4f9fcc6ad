-- ===== src/Query/Parse/Expr.antt =====
-- query/parse.go: parseExpr, regexpQuery, parseOperators, parseExprList and Parse.
use zoekt_archived.Prelude.{
  ℕ, zero, suc, ◌+◌, ◌-◌, ◌*◌, Bool, true, false, ◌&&◌, ◌||◌, List, Option, none, some, [], ◌∷◌,
  ◌++◌, Bytes, length, drop, if◌then◌else◌,
}
use zoekt_archived.Bits.Utf8.{string_of_runes}
use zoekt_archived.Query.Syntax.{
  literal, Re, re, Q, Qs, substring, regex, symbol, case_q, language, repo, branch, or_operator,
  absent, and_q, or_q, not_q, atom, nil, cons,
}
use zoekt_archived.Query.Rewrite.{map_query, map_query_list, simplify}
use zoekt_archived.Query.Parse.Outcome.{
  Outcome, ok, err, out_of_fuel, unknown_case, sym_argument, missing_close, or_operand, bad_regexp,
  ◌>>=◌,
}
use zoekt_archived.Query.Parse.Literal.{is_space}
use zoekt_archived.Query.Parse.Token.{
  Token, TokenType, tok_text, tok_file, tok_repo, tok_case, tok_branch, tok_paren_open,
  tok_paren_close, tok_error, tok_negate, tok_regex, tok_or, tok_content, tok_lang, tok_sym,
  bytes_eq, is_nil, next_token,
}
use zoekt_archived.Query.Parse.Case.{yes_flavor, no_flavor, auto_flavor, set_case}

-- What the parser uses of package regexp/syntax: Parse, with `none` for its error, and Regexp.String.
pub record RegexpSyntax : Type 0 where
  pub re_parse : Bytes → Option Re
  pub re_string : Re → Bytes

-- for len(b) > 0 && isSpace(b[0]) { b = b[1:] }
unfoldable pub skip_spaces : Bytes → Bytes
unfolding is_space
skip_spaces [] = []
skip_spaces (c ∷ cs) = let rest = skip_spaces cs in if is_space c then rest else c ∷ cs

-- q == nil
unfoldable pub is_absent : Q → Bool
is_absent (atom absent) = true
is_absent _ = false

unfoldable pub from_list : List Q → Qs
from_list [] = nil
from_list (q ∷ qs) = cons q (from_list qs)

unfoldable pub to_list : Qs → List Q
to_list nil = []
to_list (cons q qs) = q ∷ to_list qs

abbrev pub is_none : List Q → Bool
is_none [] = true
is_none (q ∷ qs) = false

unfoldable pub is_or_operator : Q → Bool
is_or_operator (atom or_operator) = true
is_or_operator _ = false

-- The loop of parseOperators, with top.Children, cur.Children and seenOr.
unfoldable pub operators_loop : List Q → List Q → Bool → List Q → Outcome Q
unfolding is_or_operator from_list
operators_loop top cur seen_or [] =
    if seen_or && is_none cur
    then err or_operand
    else ok (or_q (from_list (top ++ and_q (from_list cur) ∷ [])))
operators_loop top cur seen_or (q ∷ qs) =
    let next_or = operators_loop (top ++ and_q (from_list cur) ∷ []) [] true qs in
    let operand = operators_loop top (cur ++ q ∷ []) seen_or qs in
    if is_or_operator q then if is_none cur then err or_operand else next_or else operand

unfoldable pub parse_operators : List Q → Outcome Q
unfolding operators_loop
parse_operators qs = operators_loop [] [] false qs

-- The second loop of parseExprList: setCase and newQS.
unfoldable pub split_cases : Bytes → List Q → Bytes × List Q
split_cases flavor [] = (flavor, [])
split_cases flavor (atom (case_q f) ∷ qs) = split_cases f qs
split_cases flavor (q ∷ qs) = let (last, kept) = split_cases flavor qs in (last, q ∷ kept)

module _ (syntax : RegexpSyntax) where
  unfoldable pub finish_list : List Q → List Q
  unfolding split_cases set_case from_list to_list map_query
  finish_list qs =
      let (flavor, kept) = split_cases auto_flavor qs in
      to_list (map_query_list (map_query (set_case syntax.re_string flavor)) (from_list kept))

  abbrev pub atom_query : Bool → Bool → Re → Q
  atom_query content file (re literal others runes min subs) = atom (
      substring (record {
        pattern_text = string_of_runes runes;
        case_sensitive = false;
        file_name = file;
        content = content;
      }))
  atom_query content file r =
      atom
        (regex (record { regexp = r; file_name = file; content = content; case_sensitive = false }))

  abbrev pub query_of_regexp : Bool → Bool → Option Re → Outcome Q
  query_of_regexp content file none = err bad_regexp
  query_of_regexp content file (some r) = ok (atom_query content file r)

  unfoldable pub regexp_query : Bytes → Bool → Bool → Outcome Q
  regexp_query text content file = query_of_regexp content file (syntax.re_parse text)

  -- The cases of parseExpr that do not read on.
  unfoldable pub leaf_query : TokenType → Bytes → Outcome Q
  unfolding regexp_query bytes_eq
  leaf_query tok_case text =
      if bytes_eq text yes_flavor || (bytes_eq text no_flavor || bytes_eq text auto_flavor)
      then ok (atom (case_q text))
      else err unknown_case
  leaf_query tok_repo text = ok (atom (repo text))
  leaf_query tok_branch text = ok (atom (branch text))
  leaf_query tok_text text = regexp_query text false false
  leaf_query tok_regex text = regexp_query text false false
  leaf_query tok_file text = regexp_query text false true
  leaf_query tok_content text = regexp_query text true false
  leaf_query tok_lang text = ok (atom (language text))
  leaf_query tok_sym text =
      if is_nil text
      then err sym_argument
      else ok (
          atom (
            symbol (record {
              pattern_text = text;
              case_sensitive = false;
              file_name = false;
              content = false;
            })))
  leaf_query _ text = ok (atom absent)

  -- What follows the expressions between parentheses: the closing one, and the operators.
  unfoldable pub close_of_type : List Q → Bytes → TokenType → Outcome (Q × Bytes)
  unfolding parse_operators
  close_of_type qs left tok_paren_close = do q ← parse_operators qs; ok (q, left)
  close_of_type qs left _ = err missing_close

  unfoldable pub close_paren : List Q → Bytes → Option Token → Outcome (Q × Bytes)
  unfolding close_of_type
  close_paren qs b none = err missing_close
  close_paren qs b (some t) = close_of_type qs (drop (length t.input) b) t.kind

  -- The switch of parseExpr, with what follows the token. The two parsers that it calls are arguments.
  unfoldable pub expr_of_type :
      (Bytes → Outcome (Q × ℕ))
      → (Bytes → Outcome (List Q × ℕ))
      → Bytes
      → Bytes
      → Bytes
      → TokenType
      → Outcome (Q × ℕ)
  unfolding close_paren leaf_query
  expr_of_type expr exprs in' b text tok_paren_open = do
    (qs, n) ← exprs b
    t ← next_token (drop n b)
    (q, left) ← close_paren qs (drop n b) t
    ok (q, length in' - length left)
  expr_of_type expr exprs in' b text tok_negate = do
    (q, n) ← expr b
    ok (not_q q, length in' - length (drop n b))
  expr_of_type expr exprs in' b text kind = do
    q ← leaf_query kind text
    ok (q, length in' - length b)

  abbrev pub expr_of_token :
      (Bytes → Outcome (Q × ℕ))
      → (Bytes → Outcome (List Q × ℕ))
      → Bytes
      → Bytes
      → Option Token
      → Outcome (Q × ℕ)
  expr_of_token expr exprs in' b none = ok (atom absent, 0)
  expr_of_token expr exprs in' b (some t) =
      expr_of_type expr exprs in' (drop (length t.input) b) t.text t.kind

  unfoldable pub expr_step :
      (Bytes → Outcome (Q × ℕ)) → (Bytes → Outcome (List Q × ℕ)) → Bytes → Outcome (Q × ℕ)
  unfolding expr_of_type skip_spaces
  expr_step expr exprs in' =
      next_token (skip_spaces in') >>= expr_of_token expr exprs in' (skip_spaces in')

  -- A round of the first loop of parseExprList, after the spaces. `tok, _ := nextToken(b)` takes an
  -- error for no token.
  unfoldable pub round_of_type :
      (Bytes → Outcome (Q × ℕ))
      → (List Q → Bytes → Outcome (List Q × Bytes))
      → List Q
      → Bytes
      → TokenType
      → ℕ
      → Outcome (List Q × Bytes)
  unfolding is_absent
  round_of_type expr loop qs b tok_paren_close n = ok (qs, b)
  round_of_type expr loop qs b tok_or n = loop (qs ++ atom or_operator ∷ []) (drop n b)
  round_of_type expr loop qs b kind n = do
    (q, n') ← expr b
    if is_absent q then ok (qs, b) else loop (qs ++ q ∷ []) (drop n' b)

  abbrev pub round_of_token :
      (Bytes → Outcome (Q × ℕ))
      → (List Q → Bytes → Outcome (List Q × Bytes))
      → List Q
      → Bytes
      → Outcome (Option Token)
      → Outcome (List Q × Bytes)
  round_of_token expr loop qs b (ok (some t)) = round_of_type expr loop qs b t.kind (length t.input)
  round_of_token expr loop qs b _ = round_of_type expr loop qs b tok_error 0

  unfoldable pub list_round :
      (Bytes → Outcome (Q × ℕ))
      → (List Q → Bytes → Outcome (List Q × Bytes))
      → List Q
      → Bytes
      → Outcome (List Q × Bytes)
  unfolding round_of_type skip_spaces
  list_round expr loop qs in' =
      round_of_token expr loop qs (skip_spaces in') (next_token (skip_spaces in'))

  -- The rest of parseExprList.
  abbrev pub finish_exprs : Bytes → Outcome (List Q × Bytes) → Outcome (List Q × ℕ)
  finish_exprs in' loop = do (qs, left) ← loop; ok (finish_list qs, length in' - length left)

  -- The calls are at most twice as deep as the input is long, and one or two more.
  unfoldable mutual
    pub parse_expr : ℕ → Bytes → Outcome (Q × ℕ)
    parse_expr zero in' = out_of_fuel
    parse_expr (suc fuel) in' =
        expr_step (parse_expr fuel) (λ b. finish_exprs b (list_loop fuel [] b)) in'

    pub list_loop : ℕ → List Q → Bytes → Outcome (List Q × Bytes)
    list_loop fuel qs [] = ok (qs, [])
    list_loop zero qs (c ∷ cs) = out_of_fuel
    list_loop (suc fuel) qs (c ∷ cs) = list_round (parse_expr fuel) (list_loop fuel) qs (c ∷ cs)

  unfoldable pub parse_expr_list : ℕ → Bytes → Outcome (List Q × ℕ)
  parse_expr_list fuel in' = finish_exprs in' (list_loop fuel [] in')

  unfoldable pub parse : Bytes → Outcome Q
  unfolding parse_operators simplify
  parse text = do
    (qs, n) ← parse_expr_list (2 * length text + 2) text
    q ← parse_operators qs
    ok (simplify q)
