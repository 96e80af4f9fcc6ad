-- ===== src/Query/Parse/Token.antt =====
-- query/parse.go: nextToken and token.setType.
use zoekt_archived.Prelude.{
  ℕ, zero, suc, ◌+◌, ◌-◌, Bool, true, false, ◌&&◌, ◌||◌, List, Option, none, some, [], ◌∷◌, ◌++◌,
  Bytes, length, take, drop, ltb, ◌==◌, if◌then◌else◌,
}
use zoekt_archived.Query.Parse.Outcome.{Outcome, ok, err, out_of_fuel, lone_backslash, ◌>>=◌}
use zoekt_archived.Query.Parse.Literal.{parse_string_literal, has_prefix}

pub data TokenType : Type 0 where
  tok_text tok_file tok_repo tok_case tok_branch tok_paren_open tok_paren_close : TokenType
  tok_error tok_negate tok_regex tok_or tok_content tok_lang tok_sym : TokenType

pub record Token : Type 0 where
  pub kind : TokenType
  pub text : Bytes
  pub input : Bytes

-- The map `prefixes`, in the order of the source. (A Go map has no order: see PrefixOrder.)
abbrev pub prefixes : List (Bytes × TokenType)
prefixes =
    (b'b' ∷ b':' ∷ [], tok_branch)
    ∷ (b'b' ∷ b'r' ∷ b'a' ∷ b'n' ∷ b'c' ∷ b'h' ∷ b':' ∷ [], tok_branch)
    ∷ (b'c' ∷ b':' ∷ [], tok_content)
    ∷ (b'c' ∷ b'a' ∷ b's' ∷ b'e' ∷ b':' ∷ [], tok_case)
    ∷ (b'c' ∷ b'o' ∷ b'n' ∷ b't' ∷ b'e' ∷ b'n' ∷ b't' ∷ b':' ∷ [], tok_content)
    ∷ (b'f' ∷ b':' ∷ [], tok_file)
    ∷ (b'f' ∷ b'i' ∷ b'l' ∷ b'e' ∷ b':' ∷ [], tok_file)
    ∷ (b'r' ∷ b':' ∷ [], tok_repo)
    ∷ (b'r' ∷ b'e' ∷ b'g' ∷ b'e' ∷ b'x' ∷ b':' ∷ [], tok_regex)
    ∷ (b'r' ∷ b'e' ∷ b'p' ∷ b'o' ∷ b':' ∷ [], tok_repo)
    ∷ (b'l' ∷ b'a' ∷ b'n' ∷ b'g' ∷ b':' ∷ [], tok_lang)
    ∷ (b's' ∷ b'y' ∷ b'm' ∷ b':' ∷ [], tok_sym)
    ∷ []

unfoldable pub bytes_eq : Bytes → Bytes → Bool
bytes_eq [] [] = true
bytes_eq (a ∷ as') (b ∷ bs) = (a == b) && bytes_eq as' bs
bytes_eq _ _ = false

-- The loop over the prefixes.
unfoldable pub apply_prefix : List (Bytes × TokenType) → Token → Token
unfolding has_prefix
apply_prefix [] t = t
apply_prefix ((pref, typ) ∷ rest) t =
    let other = apply_prefix rest t in
    if has_prefix pref t.input
    then record t { kind = typ; text = drop (length pref) t.text }
    else other

-- The tests before that loop; `or` is the one reserved word.
unfoldable pub word_type : Token → Token
unfolding bytes_eq
word_type t =
    let open_type = if bytes_eq t.text (b'(' ∷ []) then tok_paren_open else t.kind in
    let close_type = if bytes_eq t.text (b')' ∷ []) then tok_paren_close else open_type in
    if bytes_eq t.text (b'o' ∷ b'r' ∷ []) && bytes_eq t.input (b'o' ∷ b'r' ∷ [])
    then record t { kind = tok_or }
    else record t { kind = close_type }

unfoldable pub set_type : Token → Token
unfolding apply_prefix word_type
set_type t = apply_prefix prefixes (word_type t)

abbrev pub is_nil : Bytes → Bool
is_nil [] = true
is_nil (c ∷ cs) = false

-- What the loop of nextToken leaves: cur.Text, left and foundSpace.
pub record Scanned : Type 0 where
  pub text : Bytes
  pub left : Bytes
  pub found_space : Bool

unfoldable pub is_break : ℕ → Bool
is_break c = (c == b' ') || ((c == b'\n') || (c == b'\t'))

-- The loop of nextToken; a round takes a byte at least.
unfoldable pub scan_loop : ℕ → ℕ → Bytes → Bytes → Outcome Scanned
unfolding parse_string_literal is_break
scan_loop fuel parens text [] = ok (record { text = text; left = []; found_space = false })
scan_loop zero parens text (c ∷ left) = out_of_fuel
scan_loop (suc fuel) parens text (c ∷ left) =
    let opened = scan_loop fuel (parens + 1) (text ++ c ∷ []) left in
    let closed = scan_loop fuel (parens - 1) (text ++ c ∷ []) left in
    let quoted = do
      (lit, n) ← parse_string_literal (c ∷ left)
      scan_loop fuel parens (text ++ lit) (drop n (c ∷ left))
    in let escaped = elim left as (λ _. Outcome Scanned) [
      | [] ↦ err lone_backslash
      | d ∷ rest ↦ scan_loop fuel parens (text ++ c ∷ d ∷ []) rest
    ] in
      let plain = scan_loop fuel parens (text ++ c ∷ []) left in
      if c == b'('
      then opened
      else if c == b')'
      then if parens == 0
        then if is_nil text
          then ok (record { text = b')' ∷ []; left = left; found_space = false })
          else ok (record { text = text; left = c ∷ left; found_space = false })
        else closed
      else if c == b'"'
      then quoted
      else if c == b'\\'
      then escaped
      else if is_break c
      then ok (record { text = text; left = c ∷ left; found_space = ltb 0 parens })
      else plain

-- The tests after that loop.
unfoldable pub finish_token : Bytes → Scanned → Option Token
unfolding set_type
finish_token in' s =
    let whole : Token = record {
      kind = tok_text;
      text = s.text;
      input = take (length in' - length s.left) in';
    } in
    let paren : Token = record { kind = tok_text; text = take 1 s.text; input = take 1 in' } in
    if is_nil s.text
    then none
    else if s.found_space && has_prefix (b'(' ∷ []) s.text
    then some (set_type paren)
    else some (set_type whole)

-- `none` is a nil token.
unfoldable pub next_token : Bytes → Outcome (Option Token)
unfolding scan_loop finish_token
next_token [] = ok none
next_token (c ∷ cs) =
    let scanned = do s ← scan_loop (suc (length cs)) 0 [] (c ∷ cs); ok (finish_token (c ∷ cs) s)
    in if c == b'-'
      then ok (some (record { kind = tok_negate; text = b'-' ∷ []; input = c ∷ [] }))
      else scanned
