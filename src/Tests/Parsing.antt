-- ===== src/Tests/Parsing.antt =====
-- query/parse.go: runs on small inputs, with a regexp parser that knows literals of letters and digits.
use zoekt_archived.Prelude.{
  ◌≡◌, refl, inl, inr, Bool, true, false, ◌&&◌, Option, some, List, [], ◌∷◌, ◌++◌, Bytes, length,
  leb, if◌then◌else◌, arith,
}
use zoekt_archived.Query.Syntax.{
  literal, any_char, Re, re, re_nil, Atom, Q, atom, substring, case_q, or_operator, and_q, not_q,
  absent, nil, cons,
}
use zoekt_archived.Query.Meaning.{holds}
use zoekt_archived.Query.Parse.Outcome.{ok, err, or_operand, Returns}
use zoekt_archived.Query.Parse.Literal.{parse_string_literal, consume_keyword, has_prefix}
use zoekt_archived.Query.Parse.Token.{
  Token, next_token, set_type, tok_paren_close, tok_repo, tok_text,
}
use zoekt_archived.Bits.Utf8.{string_of_runes}
use zoekt_archived.Query.Parse.Case.{set_case}
use zoekt_archived.Query.Parse.Expr.{
  RegexpSyntax, parse, parse_expr, parse_expr_list, expr_step, list_round, finish_list,
  parse_operators,
}
use zoekt_archived.Query.Parse.Total.{Anything, ExprOk}
use zoekt_archived.Query.Parse.Ends.{parse_expr_lem, parse_total}
use zoekt_archived.Query.Parse.Quoting.{quote, parse_string_literal-quote}
use zoekt_archived.Query.Parse.PrefixOrder.{set_type-IsEntry}
use zoekt_archived.Query.Parse.Operators.{holds_operators, holds-parse_operators}

all_letters : Bytes → Bool
all_letters [] = true
all_letters (c ∷ cs) = leb b'0' c && all_letters cs

literal_of : Bytes → Option Re
unfolding all_letters
literal_of s = some (if all_letters s then re literal 0 s 0 re_nil else re any_char 0 [] 0 re_nil)

abbrev letters : RegexpSyntax
letters = record { re_parse = literal_of; re_string = λ r. [] }

abbrev sub : Bytes → Bool → Q
sub p file = atom (
    substring
      (record { pattern_text = p; case_sensitive = false; file_name = file; content = false }))

-- a f:b
abbrev two_words : Bytes
two_words = b'a' ∷ b' ' ∷ b'f' ∷ b':' ∷ b'b' ∷ []

two_words_test :
    parse letters two_words
    ≡ ok (and_q (cons (sub (b'a' ∷ []) false) (cons (sub (b'b' ∷ []) true) nil)))
unfolding parse parse_expr_list parse_expr expr_step list_round finish_list next_token literal_of
    set_case string_of_runes
two_words_test = refl

-- A closing parenthesis between quotes has the type of one that stands free, so it ends the query.
quoted_paren :
    next_token (b'"' ∷ b')' ∷ b'"' ∷ [])
    ≡ ok (
        some (record { kind = tok_paren_close; text = b')' ∷ []; input = b'"' ∷ b')' ∷ b'"' ∷ [] }))
unfolding next_token
quoted_paren = refl

-- A minus sign with nothing behind it gives a Not of nil.
lone_minus : parse letters (b'-' ∷ []) ≡ ok (not_q (atom absent))
unfolding parse parse_expr_list parse_expr expr_step list_round finish_list next_token literal_of
    set_case string_of_runes
lone_minus = refl

-- A negated case flag stays in the query.
negated_case :
    parse letters (b'-' ∷ b'c' ∷ b'a' ∷ b's' ∷ b'e' ∷ b':' ∷ b'n' ∷ b'o' ∷ [])
    ≡ ok (not_q (atom (case_q (b'n' ∷ b'o' ∷ []))))
unfolding parse parse_expr_list parse_expr expr_step list_round finish_list next_token literal_of
    set_case string_of_runes
negated_case = refl

-- What stands behind a newline is dropped.
after_newline : parse letters (b'a' ∷ b'\n' ∷ b'b' ∷ []) ≡ ok (sub (b'a' ∷ []) false)
unfolding parse parse_expr_list parse_expr expr_step list_round finish_list next_token literal_of
    set_case string_of_runes
after_newline = refl

missing_operand : parse letters (b'o' ∷ b'r' ∷ b' ' ∷ b'a' ∷ []) ≡ err or_operand
unfolding parse parse_expr_list parse_expr expr_step list_round finish_list next_token literal_of
    set_case string_of_runes
missing_operand = refl

keyword_test :
    consume_keyword (b'f' ∷ b':' ∷ b'a' ∷ b' ' ∷ []) (b'f' ∷ b':' ∷ []) ≡ ok (some (b'a' ∷ [], 3))
unfolding consume_keyword
keyword_test = refl

parse_total_example : Returns Anything (parse letters two_words)
parse_total_example = parse_total letters two_words

parse_expr_lem_example : Returns (ExprOk letters two_words) (parse_expr letters 11 two_words)
parse_expr_lem_example = parse_expr_lem letters 11 two_words (omega arith)

parse_string_literal-quote_example :
    parse_string_literal (quote (b'a' ∷ b'"' ∷ b'\\' ∷ []) ++ b'b' ∷ [])
    ≡ ok (b'a' ∷ b'"' ∷ b'\\' ∷ [], length (quote (b'a' ∷ b'"' ∷ b'\\' ∷ [])))
parse_string_literal-quote_example =
    parse_string_literal-quote (b'a' ∷ b'"' ∷ b'\\' ∷ []) (b'b' ∷ [])

abbrev repo_token : Token
repo_token = record {
  kind = tok_text;
  text = b'r' ∷ b':' ∷ b'x' ∷ [];
  input = b'r' ∷ b':' ∷ b'x' ∷ [];
}

set_type-IsEntry_example :
    set_type repo_token
    ≡ record { kind = tok_repo; text = b'x' ∷ []; input = b'r' ∷ b':' ∷ b'x' ∷ [] }
unfolding has_prefix
set_type-IsEntry_example =
    set_type-IsEntry (b'r' ∷ b':' ∷ []) tok_repo repo_token
      (inr (inr (inr (inr (inr (inr (inr (inl refl)))))))) refl

-- a b or c
abbrev operands : List Q
operands =
    sub (b'a' ∷ []) false ∷ sub (b'b' ∷ []) false ∷ atom or_operator ∷ sub (b'c' ∷ []) false ∷ []

abbrev never : Atom → Bool
never a = false

holds-parse_operators_example :
    Returns (λ q. holds never q ≡ holds_operators never true operands) (parse_operators operands)
holds-parse_operators_example = holds-parse_operators never operands
