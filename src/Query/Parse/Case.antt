-- ===== src/Query/Parse/Case.antt =====
-- query/query.go, query/bits.go and query/regexp.go: setCase, toLower and LowerRegexp.
use zoekt_archived.Prelude.{
  ℕ, ◌+◌, ◌-◌, Bool, true, false, not, ◌&&◌, [], ◌∷◌, Bytes, leb, if◌then◌else◌,
}
use zoekt_archived.Query.Syntax.{
  Op, literal, char_class, Re, Res, re, re_nil, re_cons, Substring, Regexp, Q, substring, regex,
  symbol, atom,
}
use zoekt_archived.Query.Parse.Token.{bytes_eq}

abbrev pub lower_rune : ℕ → ℕ
lower_rune c = if leb b'A' c && leb c b'Z' then c + (b'a' - b'A') else c

unfoldable pub to_lower : Bytes → Bytes
to_lower [] = []
to_lower (c ∷ cs) = lower_rune c ∷ to_lower cs

-- The operators whose runes LowerRegexp lowers.
unfoldable pub has_runes : Op → Bool
has_runes literal = true
has_runes char_class = true
has_runes _ = false

unfoldable mutual
  pub lower_regexp : Re → Re
  lower_regexp (re op others runes min subs) =
      if has_runes op
      then re op others (to_lower runes) min subs
      else re op others runes min (lower_regexps subs)

  pub lower_regexps : Res → Res
  lower_regexps re_nil = re_nil
  lower_regexps (re_cons r rs) = re_cons (lower_regexp r) (lower_regexps rs)

abbrev pub yes_flavor : Bytes
yes_flavor = b'y' ∷ b'e' ∷ b's' ∷ []

abbrev pub no_flavor : Bytes
no_flavor = b'n' ∷ b'o' ∷ []

abbrev pub auto_flavor : Bytes
auto_flavor = b'a' ∷ b'u' ∷ b't' ∷ b'o' ∷ []

-- The switch of the setCase methods: the new flag, from the old one and the flag of "auto".
unfoldable pub case_flag : Bytes → Bool → Bool → Bool
unfolding bytes_eq
case_flag flavor old auto =
    if bytes_eq flavor yes_flavor
    then true
    else if bytes_eq flavor no_flavor
    then false
    else if bytes_eq flavor auto_flavor
    then auto
    else old

-- `re_string` is Regexp.String of package regexp/syntax.
module _ (re_string : Re → Bytes) (flavor : Bytes) where
  unfoldable pub set_case_substring : Substring → Substring
  unfolding case_flag to_lower
  set_case_substring s = record s {
    case_sensitive =
        case_flag flavor s.case_sensitive (not (bytes_eq s.pattern_text (to_lower s.pattern_text)));
  }

  unfoldable pub set_case_regexp : Regexp → Regexp
  unfolding case_flag lower_regexp
  set_case_regexp r = record r {
    case_sensitive =
        case_flag flavor r.case_sensitive
          (not (bytes_eq (re_string r.regexp) (re_string (lower_regexp r.regexp))));
  }

  -- The function that parseExprList maps: setCase, where the query has that method.
  unfoldable pub set_case : Q → Q
  unfolding set_case_substring set_case_regexp
  set_case (atom (substring s)) = atom (substring (set_case_substring s))
  set_case (atom (symbol s)) = atom (symbol (set_case_substring s))
  set_case (atom (regex r)) = atom (regex (set_case_regexp r))
  set_case q = q
