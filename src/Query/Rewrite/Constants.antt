-- ===== src/Query/Rewrite/Constants.antt =====
-- query/query.go: evalConstants meets the bottom-up evaluation, and keeps the meaning of a query.
use zoekt_archived.Prelude.{
  ℕ, zero, suc, ◌<◌, ◌≡◌, refl, sym, ap, ◌∙◌, Bool, true, false, not, arith,
}
use zoekt_archived.Query.Syntax.{Atom, Q, Qs, and_q, or_q, not_q, const, atom, nil, cons}
use zoekt_archived.Query.Meaning.{holds, holds_all, holds_any}
use zoekt_archived.Query.Rewrite.{
  map_query, map_query_list, is_vacuous, Scan, returned, kept, scan_constants, keep, finish,
  eval_and_or_constants, negate, eval_atom, eval_constants_fuel, eval_constants, depth, depth_list,
}
use zoekt_archived.Query.Rewrite.BottomUp.{
  bottom_up, bottom_up_list, bottom_up_list-depth-le, bottom_up_idem, bottom_up_list_idem,
  bottom_up-depth-le, is_evaluated, bottom_up-evaluated,
}

-- Mapping a function that agrees with `bottom_up` below the depth n.
module _ (n : ℕ) (f : Q → Q) (agree : (q : Q) → depth q < n → f q ≡ bottom_up q) where
  mutual
    unfolding map_query depth bottom_up

    map_query-bottom_up : (q : Q) → depth q < n → map_query f q ≡ bottom_up q
    map_query-bottom_up (and_q qs) h =
        ap (λ rs. f (and_q rs)) (map_query_list-bottom_up qs (omega arith))
        ∙ agree (and_q (bottom_up_list qs)) (omega (arith, bottom_up_list-depth-le qs))
        ∙ ap (eval_and_or_constants true) (bottom_up_list_idem qs)
    map_query-bottom_up (or_q qs) h =
        ap (λ rs. f (or_q rs)) (map_query_list-bottom_up qs (omega arith))
        ∙ agree (or_q (bottom_up_list qs)) (omega (arith, bottom_up_list-depth-le qs))
        ∙ ap (eval_and_or_constants false) (bottom_up_list_idem qs)
    map_query-bottom_up (not_q q) h =
        ap (λ r. f (not_q r)) (map_query-bottom_up q (omega arith))
        ∙ agree (not_q (bottom_up q)) (omega (arith, bottom_up-depth-le q))
        ∙ ap negate (bottom_up_idem q)
    map_query-bottom_up (const b) h = agree (const b) h
    map_query-bottom_up (atom a) h = agree (atom a) h

    map_query_list-bottom_up :
        (qs : Qs) → depth_list qs < n → map_query_list f qs ≡ bottom_up_list qs
    map_query_list-bottom_up nil h = refl
    map_query_list-bottom_up (cons q qs) h =
        cc (map_query-bottom_up q (omega arith), map_query_list-bottom_up qs (omega arith))

eval_constants_fuel-bottom_up :
    (n : ℕ) (q : Q) → depth q < n → eval_constants_fuel n q ≡ bottom_up q
unfolding eval_constants_fuel bottom_up depth
eval_constants_fuel-bottom_up zero q h = absurd (omega arith)
eval_constants_fuel-bottom_up (suc n) (and_q qs) h = ap (eval_and_or_constants true) (
    map_query_list-bottom_up n (eval_constants_fuel n) (eval_constants_fuel-bottom_up n) qs
      (omega arith))
eval_constants_fuel-bottom_up (suc n) (or_q qs) h = ap (eval_and_or_constants false) (
    map_query_list-bottom_up n (eval_constants_fuel n) (eval_constants_fuel-bottom_up n) qs
      (omega arith))
eval_constants_fuel-bottom_up (suc n) (not_q q) h =
    ap negate (eval_constants_fuel-bottom_up n q (omega arith))
eval_constants_fuel-bottom_up (suc n) (const b) h = refl
eval_constants_fuel-bottom_up (suc n) (atom a) h = refl

pub eval_constants-bottom_up : (q : Q) → eval_constants q ≡ bottom_up q
unfolding eval_constants
eval_constants-bottom_up q = eval_constants_fuel-bottom_up (suc (depth q)) q (omega arith)

-- The fuel is enough: evalConstants meets the recursion of the source on every node, with Map over
-- the children calling evalConstants itself.
pub eval_constants_equations :
    (qs : Qs) (q : Q)
    → (eval_constants (and_q qs) ≡ eval_and_or_constants true (map_query_list eval_constants qs))
      × (eval_constants (or_q qs) ≡ eval_and_or_constants false (map_query_list eval_constants qs))
      × (eval_constants (not_q q) ≡ negate (eval_constants q))
unfolding bottom_up
eval_constants_equations qs q = (
  eval_constants-bottom_up (and_q qs) ∙ ap (eval_and_or_constants true) (sym children),
  eval_constants-bottom_up (or_q qs) ∙ ap (eval_and_or_constants false) (sym children),
  eval_constants-bottom_up (not_q q) ∙ ap negate (sym (eval_constants-bottom_up q)),
)
  where
    children : map_query_list eval_constants qs ≡ bottom_up_list qs
    children =
        map_query_list-bottom_up (suc (depth_list qs)) eval_constants
          (λ r _. eval_constants-bottom_up r) qs (omega arith)

-- A valuation under which the leaves that evalConstants drops are true.
abbrev pub IsFaithful : (Atom → Bool) → Type 0
IsFaithful v = (a : Atom) → is_vacuous a ≡ true → v a ≡ true

abbrev combined : (Atom → Bool) → Bool → Qs → Bool
combined v true qs = holds_all v qs
combined v false qs = holds_any v qs

module _ (v : Atom → Bool) where
  abbrev ScanMeans : Bool → Scan → Bool → Type 0
  ScanMeans is_and (returned q) b = (holds v q ≡ not is_and) × (b ≡ not is_and)
  ScanMeans is_and (kept qs) b = combined v is_and qs ≡ b

  keep-ScanMeans :
      (is_and : Bool) (q : Q) (qs : Qs) (s : Scan)
      → ScanMeans is_and s (combined v is_and qs)
      → ScanMeans is_and (keep q s) (combined v is_and (cons q qs))
  unfolding holds
  keep-ScanMeans true q qs (returned r) h = ground arith
  keep-ScanMeans true q qs (kept rs) h = ground arith
  keep-ScanMeans false q qs (returned r) h = ground arith
  keep-ScanMeans false q qs (kept rs) h = ground arith

  scan_constants-ScanMeans :
      (is_and : Bool) (qs : Qs) → ScanMeans is_and (scan_constants is_and qs) (combined v is_and qs)
  unfolding scan_constants holds
  scan_constants-ScanMeans true nil = refl
  scan_constants-ScanMeans false nil = refl
  scan_constants-ScanMeans true (cons (const true) qs) = scan_constants-ScanMeans true qs
  scan_constants-ScanMeans true (cons (const false) qs) = (refl, refl)
  scan_constants-ScanMeans false (cons (const true) qs) = (refl, refl)
  scan_constants-ScanMeans false (cons (const false) qs) = scan_constants-ScanMeans false qs
  scan_constants-ScanMeans is_and (cons q qs) =
      keep-ScanMeans is_and _ qs (scan_constants is_and qs) (scan_constants-ScanMeans is_and qs)

  finish-ScanMeans :
      (is_and : Bool) (s : Scan) (b : Bool) → ScanMeans is_and s b → holds v (finish is_and s) ≡ b
  unfolding holds
  finish-ScanMeans is_and (returned q) b h = h.0 ∙ sym h.1
  finish-ScanMeans true (kept nil) b h = h
  finish-ScanMeans false (kept nil) b h = h
  finish-ScanMeans true (kept (cons q qs)) b h = h
  finish-ScanMeans false (kept (cons q qs)) b h = h

  holds-eval_and_or_constants :
      (is_and : Bool) (qs : Qs) → holds v (eval_and_or_constants is_and qs) ≡ combined v is_and qs
  unfolding eval_and_or_constants
  holds-eval_and_or_constants is_and qs =
      finish-ScanMeans is_and (scan_constants is_and qs) (combined v is_and qs)
        (scan_constants-ScanMeans is_and qs)

  holds-negate : (q : Q) → holds v (negate q) ≡ not (holds v q)
  unfolding negate holds
  holds-negate (const b) = refl
  holds-negate _ = refl

module _ (v : Atom → Bool) (faithful : IsFaithful v) where
  holds-eval_atom : (a : Atom) → holds v (eval_atom a) ≡ v a
  unfolding eval_atom holds
  holds-eval_atom a = ground (arith, faithful a)

  mutual
    unfolding bottom_up holds

    holds-bottom_up : (q : Q) → holds v (bottom_up q) ≡ holds v q
    holds-bottom_up (and_q qs) =
        holds-eval_and_or_constants v true (bottom_up_list qs) ∙ (holds_list-bottom_up qs).0
    holds-bottom_up (or_q qs) =
        holds-eval_and_or_constants v false (bottom_up_list qs) ∙ (holds_list-bottom_up qs).1
    holds-bottom_up (not_q q) = holds-negate v (bottom_up q) ∙ ap not (holds-bottom_up q)
    holds-bottom_up (const b) = refl
    holds-bottom_up (atom a) = holds-eval_atom a

    holds_list-bottom_up :
        (qs : Qs)
        → (holds_all v (bottom_up_list qs) ≡ holds_all v qs)
          × (holds_any v (bottom_up_list qs) ≡ holds_any v qs)
    holds_list-bottom_up nil = (refl, refl)
    holds_list-bottom_up (cons q qs) = ground (arith, holds-bottom_up q, holds_list-bottom_up qs)

  -- evalConstants keeps the meaning of a query.
  pub holds-eval_constants : (q : Q) → holds v (eval_constants q) ≡ holds v q
  holds-eval_constants q = ap (holds v) (eval_constants-bottom_up q) ∙ holds-bottom_up q

-- The result of evalConstants is a constant, or has no constant, no vacuous leaf and no empty And or
-- Or at any depth.
pub eval_constants-evaluated : (q : Q) → is_evaluated (eval_constants q) ≡ true
eval_constants-evaluated q = ap is_evaluated (eval_constants-bottom_up q) ∙ bottom_up-evaluated q
