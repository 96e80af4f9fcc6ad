-- ===== src/Query/TranslateLaws.antt =====
-- query/regexp.go: what matches a regexp satisfies the query that RegexpToQuery makes of it.
use zoekt_archived.Prelude.{
  ℕ, ◌≡◌, refl, ap, ◌∙◌, inl, inr, Bool, true, false, List, Option, some, Bytes, length, leb,
  if-intro, arith,
}
use zoekt_archived.Bits.Utf8.{string_of_runes}
use zoekt_archived.Query.Syntax.{
  no_match, empty_match, literal, char_class, any_char_not_nl, any_char, begin_line, end_line,
  begin_text, end_text, word_boundary, no_word_boundary, capture, star, plus, quest, repeat, concat,
  alternate, Re, Res, re, re_nil, re_cons, Atom, Q, Qs, and_q, or_q, const, atom, nil, cons,
  substring,
}
use zoekt_archived.Query.Meaning.{holds, holds_all, holds_any}
use zoekt_archived.Query.Rewrite.{simplify}
use zoekt_archived.Query.Rewrite.Constants.{IsFaithful}
use zoekt_archived.Query.Rewrite.Simplify.{holds-simplify}
use zoekt_archived.Query.Translate.{
  of_operand, of_other, query_of_literal, query_of_case, push, collect, map_option,
  regexp_to_query_recursive, queries_of, regexp_to_query,
}
use zoekt_archived.Query.RegexpLanguage.{
  HasPart, HasPart-trans, MatchesAll, MatchesAny, IsRegexpLanguage, HasOperand, IsWhole, AllWhole,
}

module _ (Folds : Bytes → Bytes → Type 0) (Matches : Re → Bytes → Type 0)
    (law : IsRegexpLanguage Folds Matches) (v : Atom → Bool) (text : Bytes)
    (found : (p s : Bytes)
      → Folds s p
      → HasPart text s
      → v (
          substring (record {
            pattern_text = p;
            case_sensitive = false;
            file_name = false;
            content = false;
          }))
        ≡ true)
    (size : ℕ) where
  Sound : Re → Q → Type 0
  Sound r q = (s : Bytes) → Matches r s → HasPart text s → holds v q ≡ true

  Translates : Re → Option Q → Type 0
  unfolding Sound
  Translates r o = (q : Q) × ((o ≡ some q) × Sound r q)

  TranslatesAll : Res → List (Option Q) → Type 0
  TranslatesAll rs os =
      (qs : Qs) × ((collect os ≡ some qs)
        × (((s : Bytes) → MatchesAll Matches rs s → HasPart text s → holds_all v qs ≡ true)
            × ((s : Bytes) → MatchesAny Matches rs s → HasPart text s → holds_any v qs ≡ true)))

  literal_lem :
      (o : ℕ) (runes : List ℕ) (min : ℕ) (subs : Res)
      → Sound (re literal o runes min subs) (query_of_literal size runes)
  unfolding Sound query_of_literal holds
  literal_lem o runes min subs s match part =
      let p = string_of_runes runes in
      if-intro (λ q. holds v q ≡ true) (leb size (length p))
        (atom (
          substring (record {
            pattern_text = p;
            case_sensitive = false;
            file_name = false;
            content = false;
          })))
        (const true) (λ _. found p s (law.of_literal o runes min subs s match) part) (λ _. refl)

  operand :
      (outer r : Re) (o : Option Q)
      → Translates r o
      → ((s : Bytes) → Matches outer s → (part : Bytes) × (HasPart s part × Matches r part))
      → Translates outer o
  unfolding Translates Sound
  operand outer r o (q, (eq, sound)) inner = (
    q,
    (
      eq,
      λ s match part.
          let (p, (inside, match_p)) = inner s match in
          sound p match_p (HasPart-trans text s p part inside),
    ),
  )

  other : (r : Re) → Translates r (some (const true))
  unfolding Translates Sound holds
  other r = (const true, (refl, λ s match part. refl))

  all_lem :
      (r : Re) (rs : Res) (q : Q) (qs : Qs)
      → Sound r q
      → ((s : Bytes) → MatchesAll Matches rs s → HasPart text s → holds_all v qs ≡ true)
      → (s : Bytes) → MatchesAll Matches (re_cons r rs) s
      → HasPart text s
      → holds_all v (cons q qs) ≡ true
  unfolding Sound MatchesAll holds
  all_lem r rs q qs sound all s ((p, (inside, match)), others) part =
      ground (arith, sound p match (HasPart-trans text s p part inside), all s others part)

  any_lem :
      (r : Re) (rs : Res) (q : Q) (qs : Qs)
      → Sound r q
      → ((s : Bytes) → MatchesAny Matches rs s → HasPart text s → holds_any v qs ≡ true)
      → (s : Bytes) → MatchesAny Matches (re_cons r rs) s
      → HasPart text s
      → holds_any v (cons q qs) ≡ true
  unfolding Sound MatchesAny holds
  any_lem r rs q qs sound any s (inl (p, (inside, match))) part =
      ground (arith, sound p match (HasPart-trans text s p part inside))
  any_lem r rs q qs sound any s (inr others) part = ground (arith, any s others part)

  mutual
    unfolding regexp_to_query_recursive Translates TranslatesAll Sound IsWhole MatchesAll MatchesAny
        holds HasOperand

    translate_lem : (r : Re) → IsWhole r → Translates r (regexp_to_query_recursive size r)
    translate_lem (re literal o runes min subs) whole =
        (query_of_literal size runes, (refl, literal_lem o runes min subs))
    translate_lem (re capture o runes min re_nil) whole = absurd whole.0
    translate_lem (re capture o runes min (re_cons r rs)) (_, (whole, _)) =
        operand (re capture o runes min (re_cons r rs)) r (regexp_to_query_recursive size r)
          (translate_lem r whole) (law.of_capture o runes min r rs)
    translate_lem (re plus o runes min re_nil) whole = absurd whole.0
    translate_lem (re plus o runes min (re_cons r rs)) (_, (whole, _)) =
        operand (re plus o runes min (re_cons r rs)) r (regexp_to_query_recursive size r)
          (translate_lem r whole) (law.of_plus o runes min r rs)
    translate_lem (re repeat o runes min re_nil) whole = absurd whole.0
    translate_lem (re repeat o runes min (re_cons r rs)) (_, (whole, _)) =
        let outer = re repeat o runes min (re_cons r rs) in
        if-intro
          (λ c. Translates outer (query_of_case c size runes (queries_of size (re_cons r rs))))
          (leb 1 min) of_operand of_other
          (λ some_times.
            operand outer r (regexp_to_query_recursive size r) (translate_lem r whole)
              (λ s match. law.of_repeat o runes min r rs s (ground arith) match))
          (λ _. other outer)
    translate_lem (re concat o runes min subs) (_, whole) =
        let (qs, (eq, (all, any))) = queries_lem subs whole in
        (
          and_q qs,
          (
            ap (map_option and_q) eq,
            λ s match part. all s (law.of_concat o runes min subs s match) part,
          ),
        )
    translate_lem (re alternate o runes min subs) (_, whole) =
        let (qs, (eq, (all, any))) = queries_lem subs whole in
        (
          or_q qs,
          (
            ap (map_option or_q) eq,
            λ s match part. any s (law.of_alternate o runes min subs s match) part,
          ),
        )
    translate_lem (re no_match n runes min subs) whole = other (re no_match n runes min subs)
    translate_lem (re empty_match n runes min subs) whole = other (re empty_match n runes min subs)
    translate_lem (re char_class n runes min subs) whole = other (re char_class n runes min subs)
    translate_lem (re any_char_not_nl n runes min subs) whole =
        other (re any_char_not_nl n runes min subs)
    translate_lem (re any_char n runes min subs) whole = other (re any_char n runes min subs)
    translate_lem (re begin_line n runes min subs) whole = other (re begin_line n runes min subs)
    translate_lem (re end_line n runes min subs) whole = other (re end_line n runes min subs)
    translate_lem (re begin_text n runes min subs) whole = other (re begin_text n runes min subs)
    translate_lem (re end_text n runes min subs) whole = other (re end_text n runes min subs)
    translate_lem (re word_boundary n runes min subs) whole =
        other (re word_boundary n runes min subs)
    translate_lem (re no_word_boundary n runes min subs) whole =
        other (re no_word_boundary n runes min subs)
    translate_lem (re star n runes min subs) whole = other (re star n runes min subs)
    translate_lem (re quest n runes min subs) whole = other (re quest n runes min subs)

    queries_lem : (rs : Res) → AllWhole rs → TranslatesAll rs (queries_of size rs)
    queries_lem re_nil whole =
        (nil, (refl, (λ s _ _. refl, λ s none_matches _. absurd none_matches)))
    queries_lem (re_cons r rs) (whole, rest) =
        let (q, (eq, sound)) = translate_lem r whole in
        let (qs, (eqs, (all, any))) = queries_lem rs rest in
        (
          cons q qs,
          ((λ i. push (eq i) (eqs i)), (all_lem r rs q qs sound all, any_lem r rs q qs sound any)),
        )

-- If every capture, plus and repetition in a regexp has an operand, then RegexpToQuery returns a query, and
-- the query holds of every text with a string in it that matches the regexp, where a substring query holds of
-- the texts with a string in them that is its pattern but for case, and vacuous leaves hold.
pub regexp_to_query-Sound :
    (Folds : Bytes → Bytes → Type 0) (Matches : Re → Bytes → Type 0)
    → IsRegexpLanguage Folds Matches
    → (v : Atom → Bool) (text : Bytes) → IsFaithful v
    → ((p s : Bytes)
        → Folds s p
        → HasPart text s
        → v (
            substring (record {
              pattern_text = p;
              case_sensitive = false;
              file_name = false;
              content = false;
            }))
          ≡ true)
    → (size : ℕ) (r : Re) (s : Bytes) → IsWhole r
    → Matches r s
    → HasPart text s
    → (q : Q) × ((regexp_to_query size r ≡ some q) × (holds v q ≡ true))
unfolding regexp_to_query Translates Sound
regexp_to_query-Sound Folds Matches law v text faithful found size r s whole match part =
    let (q, (eq, sound)) = translate_lem Folds Matches law v text found size r whole in
    (simplify q, (ap (map_option simplify) eq, holds-simplify v faithful q ∙ sound s match part))
