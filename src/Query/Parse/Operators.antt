-- ===== src/Query/Parse/Operators.antt =====
-- query/parse.go: what parseOperators makes of a list of queries and operators.
use mathlib.Core.Path.{ap₂}
use zoekt_archived.Prelude.{
  ◌≡◌, refl, ap, ◌∙◌, Bool, true, false, ◌&&◌, ◌||◌, ||_assoc, List, [], ◌∷◌, ◌++◌, if◌then◌else◌,
  arith,
}
use zoekt_archived.Query.Syntax.{Atom, Q, Qs, and_q, or_q}
use zoekt_archived.Query.Meaning.{holds, holds_all, holds_any}
use zoekt_archived.Query.Parse.Outcome.{Returns, Returns-if, Returns-weaken}
use zoekt_archived.Query.Parse.Expr.{
  is_or_operator, is_none, from_list, operators_loop, parse_operators,
}

-- The queries between two operators must all hold, and so they must between one pair of neighbours.
-- `acc` is the value of the queries since the last operator.
unfoldable pub holds_operators : (Atom → Bool) → Bool → List Q → Bool
holds_operators v acc [] = acc
holds_operators v acc (q ∷ qs) =
    let operator = acc || holds_operators v true qs in
    let operand = holds_operators v (acc && holds v q) qs in
    if is_or_operator q then operator else operand

holds_all-append :
    (v : Atom → Bool) (qs rs : List Q)
    → holds_all v (from_list (qs ++ rs))
      ≡ (holds_all v (from_list qs) && holds_all v (from_list rs))
unfolding holds from_list
holds_all-append v [] rs = refl
holds_all-append v (q ∷ qs) rs = ground (arith, holds_all-append v qs rs)

holds_any-append :
    (v : Atom → Bool) (qs rs : List Q)
    → holds_any v (from_list (qs ++ rs))
      ≡ (holds_any v (from_list qs) || holds_any v (from_list rs))
unfolding holds from_list
holds_any-append v [] rs = refl
holds_any-append v (q ∷ qs) rs = ground (arith, holds_any-append v qs rs)

snoc_group :
    (v : Atom → Bool) (top cur : List Q)
    → holds_any v (from_list (top ++ and_q (from_list cur) ∷ []))
      ≡ (holds_any v (from_list top) || holds_all v (from_list cur))
unfolding holds from_list
snoc_group v top cur =
    let split = holds_any-append v top (and_q (from_list cur) ∷ []) in ground arith

snoc_operand :
    (v : Atom → Bool) (cur : List Q) (q : Q)
    → holds_all v (from_list (cur ++ q ∷ [])) ≡ (holds_all v (from_list cur) && holds v q)
unfolding holds from_list
snoc_operand v cur q = let split = holds_all-append v cur (q ∷ []) in ground arith

holds-or : (v : Atom → Bool) (qs : Qs) → holds v (or_q qs) ≡ holds_any v qs
unfolding holds
holds-or v qs = refl

all_of_none : (v : Atom → Bool) → holds_all v (from_list []) ≡ true
unfolding holds from_list
all_of_none v = refl

operators_loop_lem :
    (v : Atom → Bool) (top cur : List Q) (seen : Bool) (qs : List Q)
    → Returns
        (λ q.
          holds v q
          ≡ (holds_any v (from_list top) || holds_operators v (holds_all v (from_list cur)) qs))
        (operators_loop top cur seen qs)
unfolding operators_loop holds_operators
operators_loop_lem v top cur seen [] =
    Returns-if (λ q. holds v q ≡ (holds_any v (from_list top) || holds_all v (from_list cur)))
      (seen && is_none cur) _ _ (λ _. tt)
      (λ _. holds-or v (from_list (top ++ and_q (from_list cur) ∷ [])) ∙ snoc_group v top cur)
operators_loop_lem v top cur seen (q ∷ qs) =
    let operator = holds_all v (from_list cur) || holds_operators v true qs in
    let operand = holds_operators v (holds_all v (from_list cur) && holds v q) qs in
    let P = λ (r : Q).
      holds v r
      ≡ (holds_any v (from_list top) || (if is_or_operator q then operator else operand)) in
    Returns-if P (is_or_operator q) _ _
      (λ e.
        Returns-if P (is_none cur) _ _ (λ _. tt)
          (λ _.
            Returns-weaken _ P (operators_loop (top ++ and_q (from_list cur) ∷ []) [] true qs)
              (λ r h.
                h
                ∙ rw e (
                    ap₂ (λ a b. a || holds_operators v b qs) (snoc_group v top cur) (all_of_none v)
                    ∙ ||_assoc (holds_any v (from_list top)) (holds_all v (from_list cur))
                        (holds_operators v true qs)))
              (operators_loop_lem v (top ++ and_q (from_list cur) ∷ []) [] true qs)))
      (λ e.
        Returns-weaken _ P (operators_loop top (cur ++ q ∷ []) seen qs)
          (λ r h.
            h
            ∙ rw e (
                ap (λ b. holds_any v (from_list top) || holds_operators v b qs)
                  (snoc_operand v cur q)))
          (operators_loop_lem v top (cur ++ q ∷ []) seen qs))

-- A query that parseOperators returns holds exactly if all the queries between some two neighbouring
-- operators hold.
pub holds-parse_operators :
    (v : Atom → Bool) (qs : List Q)
    → Returns (λ q. holds v q ≡ holds_operators v true qs) (parse_operators qs)
unfolding parse_operators from_list holds
holds-parse_operators v qs = operators_loop_lem v [] [] false qs
