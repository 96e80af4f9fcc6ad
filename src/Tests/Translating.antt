-- ===== src/Tests/Translating.antt =====
-- query/regexp.go and CheckText on small inputs.
use zoekt_archived.Prelude.{
  ℕ, ◌≤◌, ◌≡◌, ◌⊎◌, refl, ap, sym, ◌∙◌, inl, inr, Bool, true, false, ◌||◌, List, [], ◌∷◌, ◌++◌,
  append-nil, some, Bytes, arith,
}
use zoekt_archived.Bits.Utf8.{string_of_runes}
use zoekt_archived.Query.Syntax.{
  literal, capture, plus, repeat, concat, alternate, Re, Res, re, re_nil, re_cons, Atom, Q, and_q,
  or_q, atom, nil, cons, substring,
}
use zoekt_archived.Query.Meaning.{holds}
use zoekt_archived.Query.Rewrite.{is_vacuous, simplify}
use zoekt_archived.Query.Rewrite.Constants.{IsFaithful}
use zoekt_archived.Query.Translate.{regexp_to_query}
use zoekt_archived.Query.RegexpLanguage.{HasPart, MatchesAll, MatchesAny, IsRegexpLanguage, IsWhole}
use zoekt_archived.Query.TranslateLaws.{regexp_to_query-Sound}
use zoekt_archived.Eval.Shard.{contains, has_prefix}

-- A language of regexps: every string matches an operator that the translation drops.
unfoldable mutual
  Matches : Re → Bytes → Type 0
  Matches (re literal o runes min subs) s = s ≡ string_of_runes runes
  Matches (re capture o runes min (re_cons r rs)) s = Matches r s
  Matches (re plus o runes min (re_cons r rs)) s =
      (part : Bytes) × (HasPart s part × Matches r part)
  Matches (re repeat o runes min (re_cons r rs)) s =
      1 ≤ min → (part : Bytes) × (HasPart s part × Matches r part)
  Matches (re concat o runes min rs) s = AllOf rs s
  Matches (re alternate o runes min rs) s = OneOf rs s
  Matches _ s = Unit

  AllOf : Res → Bytes → Type 0
  AllOf re_nil s = Unit
  AllOf (re_cons r rs) s = ((part : Bytes) × (HasPart s part × Matches r part)) × AllOf rs s

  OneOf : Res → Bytes → Type 0
  OneOf re_nil s = ⊥
  OneOf (re_cons r rs) s = ((part : Bytes) × (HasPart s part × Matches r part)) ⊎ OneOf rs s

AllOf_lem : (rs : Res) (s : Bytes) → AllOf rs s → MatchesAll Matches rs s
unfolding Matches MatchesAll
AllOf_lem re_nil s all = tt
AllOf_lem (re_cons r rs) s (first, rest) = (first, AllOf_lem rs s rest)

OneOf_lem : (rs : Res) (s : Bytes) → OneOf rs s → MatchesAny Matches rs s
unfolding Matches MatchesAny
OneOf_lem re_nil s none_of = none_of
OneOf_lem (re_cons r rs) s (inl first) = inl first
OneOf_lem (re_cons r rs) s (inr rest) = inr (OneOf_lem rs s rest)

language : IsRegexpLanguage (λ s p. s ≡ p) Matches
unfolding Matches HasPart
language = record {
  of_literal = λ o runes min subs s eq. eq;
  of_capture = λ o runes min r rs s match. (s, (([], ([], sym (append-nil s))), match));
  of_plus = λ o runes min r rs s match. match;
  of_repeat = λ o runes min r rs s le match. match le;
  of_concat = λ o runes min rs s match. AllOf_lem rs s match;
  of_alternate = λ o runes min rs s match. OneOf_lem rs s match;
}

has_prefix_lem : (p after : Bytes) → has_prefix (p ++ after) p ≡ true
unfolding has_prefix
has_prefix_lem [] [] = refl
has_prefix_lem [] (c ∷ after) = refl
has_prefix_lem (c ∷ p) after = ground (arith, has_prefix_lem p after)

or_true : (a b : Bool) → b ≡ true → (a || b) ≡ true
or_true a b eq = ground (arith, eq)

contains_lem : (before p after : Bytes) → contains (before ++ (p ++ after)) p ≡ true
unfolding contains has_prefix
contains_lem [] [] [] = refl
contains_lem [] [] (c ∷ after) = refl
contains_lem [] (c ∷ p) after =
    let found = has_prefix_lem (c ∷ p) after in ap (λ b. b || contains (p ++ after) (c ∷ p)) found
contains_lem (c ∷ before) p after =
    let later = contains_lem before p after in
    or_true (has_prefix (c ∷ (before ++ (p ++ after))) p) (contains (before ++ (p ++ after)) p)
      later

abbrev leaf_in : Bytes → Atom → Bool
leaf_in text (substring s) = contains text s.pattern_text
leaf_in text _ = true

in_text : Bytes → Atom → Bool
in_text text a = is_vacuous a || leaf_in text a

in_text-found :
    (text p s : Bytes)
    → s ≡ p
    → HasPart text s
    → in_text text (
        substring
          (record { pattern_text = p; case_sensitive = false; file_name = false; content = false }))
      ≡ true
unfolding HasPart in_text
in_text-found text p s eq (before, (after, place)) =
    or_true
      (is_vacuous (
        substring (record {
          pattern_text = p;
          case_sensitive = false;
          file_name = false;
          content = false;
        })))
      (contains text p)
      (ap (λ t. contains t p) (place ∙ ap (λ x. before ++ (x ++ after)) eq)
        ∙ contains_lem before p after)

in_text-IsFaithful : (text : Bytes) → IsFaithful (in_text text)
unfolding in_text
in_text-IsFaithful text a vacuous = ap (λ b. b || leaf_in text a) vacuous

abbrev literal_of : List ℕ → Re
literal_of runes = re literal 0 runes 0 re_nil

-- abc(de|xyz)+
abbrev alternatives : Re
alternatives = re concat 0 [] 0 (
    re_cons (literal_of (97 ∷ 98 ∷ 99 ∷ [])) (
      re_cons
        (re plus 0 [] 0 (
          re_cons
            (re capture 0 [] 0 (
              re_cons
                (re alternate 0 [] 0 (
                  re_cons (literal_of (100 ∷ 101 ∷ 102 ∷ []))
                    (re_cons (literal_of (120 ∷ 121 ∷ 122 ∷ [])) re_nil)))
                re_nil))
            re_nil))
        re_nil))

abbrev abc : Bytes
abc = 97 ∷ 98 ∷ 99 ∷ []

abbrev xyz : Bytes
xyz = 120 ∷ 121 ∷ 122 ∷ []

abc_xyz : Matches alternatives (abc ++ xyz)
unfolding Matches string_of_runes HasPart
abc_xyz = (
  (abc, (([], (xyz, refl)), refl)),
  (
    (
      xyz,
      ((abc, ([], refl)), (xyz, (([], ([], refl)), inr (inl (xyz, (([], ([], refl)), refl)))))),
    ),
    tt,
  ),
)

abbrev text : Bytes
text = 32 ∷ abc ++ xyz ++ 32 ∷ []

regexp_to_query-Sound_example :
    (q : Q) × ((regexp_to_query 3 alternatives ≡ some q) × (holds (in_text text) q ≡ true))
unfolding IsWhole HasPart
regexp_to_query-Sound_example =
    regexp_to_query-Sound (λ s p. s ≡ p) Matches language (in_text text) text
      (in_text-IsFaithful text) (in_text-found text) 3 alternatives (abc ++ xyz)
      (tt, ((tt, tt), ((tt, ((tt, ((tt, ((tt, tt), ((tt, tt), tt))), tt)), tt)), tt))) abc_xyz
      (32 ∷ [], (32 ∷ [], refl))

-- The query of that regexp.
abbrev pattern_of : Bytes → Q
pattern_of p = atom (
    substring
      (record { pattern_text = p; case_sensitive = false; file_name = false; content = false }))

query_of_alternatives :
    regexp_to_query 3 alternatives
    ≡ some (
        and_q (
          cons (pattern_of abc) (
            cons
              (or_q (cons (pattern_of (100 ∷ 101 ∷ 102 ∷ [])) (cons (pattern_of xyz) nil)))
              nil)))
unfolding regexp_to_query string_of_runes simplify
query_of_alternatives = refl
