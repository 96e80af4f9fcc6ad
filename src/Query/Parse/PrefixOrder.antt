-- ===== src/Query/Parse/PrefixOrder.antt =====
-- query/parse.go: the order of the map `prefixes` does not matter to setType.
use mathlib.Core.Path.{subst, ap₂}
use zoekt_archived.Prelude.{
  ◌≡◌, refl, sym, ap, ◌∙◌, ◌⊎◌, inl, inr, Bool, true, not, ◌&&◌, ◌||◌, List, [], ◌∷◌, Bytes, length,
  drop, arith, Bool-cases,
}
use zoekt_archived.Query.Parse.Literal.{has_prefix}
use zoekt_archived.Query.Parse.Token.{Token, TokenType, prefixes, apply_prefix, word_type, set_type}

-- The entry is one of the list.
abbrev pub IsEntry : Bytes × TokenType → List (Bytes × TokenType) → Type 0
IsEntry e [] = ⊥
IsEntry e (x ∷ xs) = (e ≡ x) ⊎ IsEntry e xs

are_comparable : Bytes → Bytes → Bool
unfolding has_prefix
are_comparable p q = has_prefix p q || has_prefix q p

-- No prefix of the list is a prefix of another.
is_apart_from : Bytes → List (Bytes × TokenType) → Bool
is_apart_from p [] = true
is_apart_from p ((q, k) ∷ rest) = not (are_comparable p q) && is_apart_from p rest

are_apart : List (Bytes × TokenType) → Bool
are_apart [] = true
are_apart ((p, k) ∷ rest) = is_apart_from p rest && are_apart rest

prefixes_apart : are_apart prefixes ≡ true
unfolding are_apart is_apart_from are_comparable
prefixes_apart = refl

comparable_lem :
    (p q s : Bytes) → has_prefix p s ≡ true → has_prefix q s ≡ true → are_comparable p q ≡ true
unfolding are_comparable has_prefix
comparable_lem [] q s h k = refl
comparable_lem (a ∷ p) [] s h k = ground arith
comparable_lem (a ∷ p) (b ∷ q) [] h k = cc
comparable_lem (a ∷ p) (b ∷ q) (c ∷ s) h k = ground (arith, comparable_lem p q s)

apart_lem :
    (p q : Bytes) (k : TokenType) (s : Bytes) (rest : List (Bytes × TokenType))
    → is_apart_from p rest ≡ true
    → IsEntry (q, k) rest
    → has_prefix p s ≡ true
    → has_prefix q s ≡ true
    → ⊥
unfolding is_apart_from
apart_lem p q k s [] a m h i = m
apart_lem p q k s ((r, l) ∷ rest) a (inl e) h i =
    let same : q ≡ r = ap (λ (x : Bytes × TokenType). x.0) e in
    let both = comparable_lem p q s h i in
    let moved : are_comparable p r ≡ true = ap (are_comparable p) (sym same) ∙ both in ground arith
apart_lem p q k s ((r, l) ∷ rest) a (inr m) h i = apart_lem p q k s rest (ground arith) m h i

apply_prefix_lem :
    (ps : List (Bytes × TokenType)) (p : Bytes) (k : TokenType) (t : Token)
    → are_apart ps ≡ true
    → IsEntry (p, k) ps
    → has_prefix p t.input ≡ true
    → apply_prefix ps t ≡ record t { kind = k; text = drop (length p) t.text }
unfolding apply_prefix are_apart
apply_prefix_lem [] p k t a m h = absurd m
apply_prefix_lem ((q, l) ∷ ps) p k t a (inl e) h =
    let hit : has_prefix q t.input ≡ true =
      ap (λ (x : Bytes × TokenType). has_prefix x.0 t.input) (sym e) ∙ h in
    subst
      (λ (x : Bytes × TokenType).
        apply_prefix ((q, l) ∷ ps) t ≡ record t { kind = x.1; text = drop (length x.0) t.text })
      (sym e) (rw hit)
apply_prefix_lem ((q, l) ∷ ps) p k t a (inr m) h = elim (Bool-cases (has_prefix q t.input)) [
  | inl hit ↦ absurd (apart_lem q p k t.input ps (ground arith) m hit h)
  | inr miss ↦ rw miss (apply_prefix_lem ps p k t (ground arith) m h)
]

word_type_lem : (t : Token) → ((word_type t).input ≡ t.input) × ((word_type t).text ≡ t.text)
unfolding word_type
word_type_lem t = (ground arith, ground arith)

-- setType gives a token whose input starts with a prefix of the map the type of that prefix, and drops
-- the prefix from its text, whichever entry the loop over the map comes to first.
pub set_type-IsEntry :
    (p : Bytes) (k : TokenType) (t : Token)
    → IsEntry (p, k) prefixes
    → has_prefix p t.input ≡ true
    → set_type t ≡ record { kind = k; text = drop (length p) t.text; input = t.input }
unfolding set_type
set_type-IsEntry p k t m h =
    let (same_input, same_text) = word_type_lem t in
    apply_prefix_lem prefixes p k (word_type t) prefixes_apart m (ap (has_prefix p) same_input ∙ h)
    ∙ ap₂ (λ x i. record { kind = k; text = drop (length p) x; input = i }) same_text same_input
