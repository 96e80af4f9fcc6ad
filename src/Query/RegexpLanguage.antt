-- ===== src/Query/RegexpLanguage.antt =====
-- regexp/syntax: what the translation of query/regexp.go needs to know of the language of a regexp.
use zoekt_archived.Prelude.{ℕ, ◌≤◌, ◌≡◌, ◌⊎◌, ap, sym, ◌∙◌, List, ◌++◌, append_assoc, Bytes}
use zoekt_archived.Bits.Utf8.{string_of_runes}
use zoekt_archived.Query.Syntax.{
  Op, literal, capture, plus, repeat, concat, alternate, Re, Res, re, re_nil, re_cons,
}

-- The second string lies in the first.
unfoldable pub HasPart : Bytes → Bytes → Type 0
HasPart text part = (before : Bytes) × ((after : Bytes) × (text ≡ before ++ (part ++ after)))

pub HasPart-trans : (a b c : Bytes) → HasPart a b → HasPart b c → HasPart a c
unfolding HasPart
HasPart-trans a b c (p, (q, ab)) (r, (s, bc)) = (
  p ++ r,
  (
    s ++ q,
    ab
        ∙ ap (λ x. p ++ (x ++ q)) bc
        ∙ ap (λ x. p ++ x) (append_assoc r (c ++ s) q ∙ ap (λ x. r ++ x) (append_assoc c s q))
        ∙ sym (append_assoc p r (c ++ (s ++ q))),
  ),
)

-- The strings in which the parts of a concatenation, or one of some alternatives, match.
module _ (Matches : Re → Bytes → Type 0) where
  unfoldable pub MatchesAll : Res → Bytes → Type 0
  MatchesAll re_nil s = Unit
  MatchesAll (re_cons r rs) s =
      ((part : Bytes) × (HasPart s part × Matches r part)) × MatchesAll rs s

  unfoldable pub MatchesAny : Res → Bytes → Type 0
  MatchesAny re_nil s = ⊥
  MatchesAny (re_cons r rs) s =
      ((part : Bytes) × (HasPart s part × Matches r part)) ⊎ MatchesAny rs s

-- What the operators of package regexp/syntax mean for the strings that match, as far as the translation needs
-- it. `Folds s p` says that s is p but for the case of letters.
pub record IsRegexpLanguage (Folds : Bytes → Bytes → Type 0) (Matches : Re → Bytes → Type 0)
    : Type 0 where
  pub of_literal :
      (o : ℕ) (runes : List ℕ) (min : ℕ) (subs : Res) (s : Bytes)
      → Matches (re literal o runes min subs) s
      → Folds s (string_of_runes runes)
  pub of_capture :
      (o : ℕ) (runes : List ℕ) (min : ℕ) (r : Re) (rs : Res) (s : Bytes)
      → Matches (re capture o runes min (re_cons r rs)) s
      → (part : Bytes) × (HasPart s part × Matches r part)
  pub of_plus :
      (o : ℕ) (runes : List ℕ) (min : ℕ) (r : Re) (rs : Res) (s : Bytes)
      → Matches (re plus o runes min (re_cons r rs)) s
      → (part : Bytes) × (HasPart s part × Matches r part)
  pub of_repeat :
      (o : ℕ) (runes : List ℕ) (min : ℕ) (r : Re) (rs : Res) (s : Bytes)
      → 1 ≤ min
      → Matches (re repeat o runes min (re_cons r rs)) s
      → (part : Bytes) × (HasPart s part × Matches r part)
  pub of_concat :
      (o : ℕ) (runes : List ℕ) (min : ℕ) (rs : Res) (s : Bytes)
      → Matches (re concat o runes min rs) s
      → MatchesAll Matches rs s
  pub of_alternate :
      (o : ℕ) (runes : List ℕ) (min : ℕ) (rs : Res) (s : Bytes)
      → Matches (re alternate o runes min rs) s
      → MatchesAny Matches rs s

-- Where an operator takes an operand, there is one.
unfoldable pub HasOperand : Op → Res → Type 0
HasOperand capture re_nil = ⊥
HasOperand plus re_nil = ⊥
HasOperand repeat re_nil = ⊥
HasOperand _ _ = Unit

unfoldable mutual
  unfolding HasOperand

  pub IsWhole : Re → Type 0
  IsWhole (re op o runes min subs) = HasOperand op subs × AllWhole subs

  pub AllWhole : Res → Type 0
  AllWhole re_nil = Unit
  AllWhole (re_cons r rs) = IsWhole r × AllWhole rs
