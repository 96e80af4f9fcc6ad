-- ===== src/Query/Translate.antt =====
-- query/regexp.go: RegexpToQuery.
use zoekt_archived.Prelude.{
  ℕ, false, true, List, [], ◌∷◌, Option, none, some, length, leb, if◌then◌else◌,
}
use zoekt_archived.Bits.Utf8.{string_of_runes}
use zoekt_archived.Query.Syntax.{
  Op, literal, capture, plus, repeat, concat, alternate, Re, Res, re, re_nil, re_cons, Q, Qs, and_q,
  or_q, const, atom, nil, cons, substring,
}
use zoekt_archived.Query.Rewrite.{simplify}

-- What the switch does with a node.
pub data Case : Type 0 where
  of_literal of_operand of_concat of_alternate of_other : Case

unfoldable pub case_of : Op → ℕ → Case
case_of literal n = of_literal
case_of capture n = of_operand
case_of plus n = of_operand
case_of repeat n = if leb 1 n then of_operand else of_other
case_of concat n = of_concat
case_of alternate n = of_alternate
case_of _ n = of_other

unfoldable pub query_of_literal : ℕ → List ℕ → Q
unfolding string_of_runes
query_of_literal min_text_size runes =
    let s = string_of_runes runes in
    if leb min_text_size (length s)
    then atom (
        substring
          (record { pattern_text = s; case_sensitive = false; file_name = false; content = false }))
    else const true

-- Results of the calls on Sub; `none` is a panic, of Sub[0] where there is none.
abbrev pub first : List (Option Q) → Option Q
first [] = none
first (q ∷ qs) = q

abbrev pub push : Option Q → Option Qs → Option Qs
push none qs = none
push (some q) none = none
push (some q) (some qs) = some (cons q qs)

abbrev pub collect : List (Option Q) → Option Qs
collect [] = some nil
collect (q ∷ qs) = push q (collect qs)

abbrev pub map_option : {A B : Type 0} → (A → B) → Option A → Option B
map_option f none = none
map_option f (some a) = some (f a)

unfoldable pub query_of_case : Case → ℕ → List ℕ → List (Option Q) → Option Q
unfolding query_of_literal
query_of_case of_literal size runes subs = some (query_of_literal size runes)
query_of_case of_operand size runes subs = first subs
query_of_case of_concat size runes subs = map_option and_q (collect subs)
query_of_case of_alternate size runes subs = map_option or_q (collect subs)
query_of_case of_other size runes subs = some (const true)

-- regexpToQueryRecursive. The results on Sub that a node does not use are dropped with it.
unfoldable mutual
  unfolding query_of_case case_of

  pub regexp_to_query_recursive : ℕ → Re → Option Q
  regexp_to_query_recursive size (re op others runes min subs) =
      query_of_case (case_of op min) size runes (queries_of size subs)

  pub queries_of : ℕ → Res → List (Option Q)
  queries_of size re_nil = []
  queries_of size (re_cons r rs) = regexp_to_query_recursive size r ∷ queries_of size rs

unfoldable pub regexp_to_query : ℕ → Re → Option Q
unfolding regexp_to_query_recursive simplify
regexp_to_query size r = map_option simplify (regexp_to_query_recursive size r)
