-- ===== src/Query/Rewrite/BottomUp.antt =====
-- query/query.go: bottom-up evaluation of constants, each node once, to which evalConstants is
-- compared in the sibling `Constants`.
use zoekt_archived.Prelude.{ℕ, suc, ◌≤◌, ◌≡◌, refl, ap, ◌∙◌, Bool, true, false, not, ◌&&◌, arith}
use zoekt_archived.Query.Syntax.{Atom, Q, Qs, and_q, or_q, not_q, const, atom, nil, cons}
use zoekt_archived.Query.Rewrite.{
  is_vacuous, Scan, returned, kept, scan_constants, and_or, finish, eval_and_or_constants, negate,
  eval_atom, depth, depth_list,
}

-- The bottom-up evaluation that evalConstants amounts to: each node once, its children first.
unfoldable mutual
  pub bottom_up : Q → Q
  bottom_up (and_q qs) = eval_and_or_constants true (bottom_up_list qs)
  bottom_up (or_q qs) = eval_and_or_constants false (bottom_up_list qs)
  bottom_up (not_q q) = negate (bottom_up q)
  bottom_up (const b) = const b
  bottom_up (atom a) = eval_atom a

  pub bottom_up_list : Qs → Qs
  bottom_up_list nil = nil
  bottom_up_list (cons q qs) = cons (bottom_up q) (bottom_up_list qs)

abbrev pub is_nil : Qs → Bool
is_nil nil = true
is_nil (cons q qs) = false

-- No constant, no vacuous leaf and no empty And or Or anywhere.
unfoldable mutual
  pub is_proper : Q → Bool
  is_proper (and_q qs) = not (is_nil qs) && all_proper qs
  is_proper (or_q qs) = not (is_nil qs) && all_proper qs
  is_proper (not_q q) = is_proper q
  is_proper (const b) = false
  is_proper (atom a) = not (is_vacuous a)

  pub all_proper : Qs → Bool
  all_proper nil = true
  all_proper (cons q qs) = is_proper q && all_proper qs

-- A constant, or a query with none in it.
unfoldable pub is_evaluated : Q → Bool
is_evaluated (const b) = true
is_evaluated q = is_proper q

all_evaluated : Qs → Bool
all_evaluated nil = true
all_evaluated (cons q qs) = is_evaluated q && all_evaluated qs

abbrev scan_proper : Scan → Bool
scan_proper (returned q) = is_evaluated q
scan_proper (kept qs) = all_proper qs

scan_constants-proper :
    (is_and : Bool) (qs : Qs)
    → all_evaluated qs ≡ true
    → scan_proper (scan_constants is_and qs) ≡ true
unfolding scan_constants all_evaluated is_evaluated is_proper
scan_constants-proper is_and nil h = refl
scan_constants-proper is_and (cons (const b) qs) h = ground (arith, scan_constants-proper is_and qs)
scan_constants-proper is_and (cons _ qs) h = ground (arith, scan_constants-proper is_and qs)

finish-evaluated :
    (is_and : Bool) (s : Scan) → scan_proper s ≡ true → is_evaluated (finish is_and s) ≡ true
unfolding is_evaluated is_proper
finish-evaluated is_and (returned q) h = h
finish-evaluated is_and (kept nil) h = refl
finish-evaluated true (kept (cons q qs)) h = h
finish-evaluated false (kept (cons q qs)) h = h

eval_and_or_constants-evaluated :
    (is_and : Bool) (qs : Qs)
    → all_evaluated qs ≡ true
    → is_evaluated (eval_and_or_constants is_and qs) ≡ true
unfolding eval_and_or_constants
eval_and_or_constants-evaluated is_and qs h =
    finish-evaluated is_and (scan_constants is_and qs) (scan_constants-proper is_and qs h)

negate-evaluated : (q : Q) → is_evaluated q ≡ true → is_evaluated (negate q) ≡ true
unfolding negate is_evaluated is_proper
negate-evaluated (const b) h = refl
negate-evaluated _ h = h

eval_atom-evaluated : (a : Atom) → is_evaluated (eval_atom a) ≡ true
unfolding eval_atom is_evaluated is_proper
eval_atom-evaluated a = ground arith

mutual
  unfolding bottom_up all_evaluated is_evaluated

  pub bottom_up-evaluated : (q : Q) → is_evaluated (bottom_up q) ≡ true
  bottom_up-evaluated (and_q qs) =
      eval_and_or_constants-evaluated true (bottom_up_list qs) (bottom_up_list-evaluated qs)
  bottom_up-evaluated (or_q qs) =
      eval_and_or_constants-evaluated false (bottom_up_list qs) (bottom_up_list-evaluated qs)
  bottom_up-evaluated (not_q q) = negate-evaluated _ (bottom_up-evaluated q)
  bottom_up-evaluated (const b) = refl
  bottom_up-evaluated (atom a) = eval_atom-evaluated a

  bottom_up_list-evaluated : (qs : Qs) → all_evaluated (bottom_up_list qs) ≡ true
  bottom_up_list-evaluated nil = refl
  bottom_up_list-evaluated (cons q qs) =
      ground (arith, bottom_up-evaluated q, bottom_up_list-evaluated qs)

scan_constants_fixed :
    (is_and : Bool) (qs : Qs) → all_proper qs ≡ true → scan_constants is_and qs ≡ kept qs
unfolding scan_constants is_proper
scan_constants_fixed is_and nil h = refl
scan_constants_fixed is_and (cons (const b) qs) h = ground arith
scan_constants_fixed is_and (cons _ qs) h = ground (arith, scan_constants_fixed is_and qs)

eval_and_or_constants_fixed :
    (is_and : Bool) (q : Q) (qs : Qs)
    → all_proper (cons q qs) ≡ true
    → eval_and_or_constants is_and (cons q qs) ≡ and_or is_and (cons q qs)
unfolding eval_and_or_constants
eval_and_or_constants_fixed is_and q qs h =
    ap (finish is_and) (scan_constants_fixed is_and (cons q qs) h)

negate_fixed : (q : Q) → is_proper q ≡ true → negate q ≡ not_q q
unfolding negate is_proper
negate_fixed (const b) h = cc
negate_fixed _ h = refl

mutual
  unfolding bottom_up is_proper eval_atom

  bottom_up_proper : (q : Q) → is_proper q ≡ true → bottom_up q ≡ q
  bottom_up_proper (and_q nil) h = cc
  bottom_up_proper (and_q (cons q qs)) h =
      ap (eval_and_or_constants true) (bottom_up_list_proper (cons q qs) h)
      ∙ eval_and_or_constants_fixed true q qs h
  bottom_up_proper (or_q nil) h = cc
  bottom_up_proper (or_q (cons q qs)) h =
      ap (eval_and_or_constants false) (bottom_up_list_proper (cons q qs) h)
      ∙ eval_and_or_constants_fixed false q qs h
  bottom_up_proper (not_q q) h = ap negate (bottom_up_proper q h) ∙ negate_fixed q h
  bottom_up_proper (const b) h = refl
  bottom_up_proper (atom a) h = ground arith

  bottom_up_list_proper : (qs : Qs) → all_proper qs ≡ true → bottom_up_list qs ≡ qs
  bottom_up_list_proper nil h = refl
  bottom_up_list_proper (cons q qs) h = ground (arith, bottom_up_proper q, bottom_up_list_proper qs)

pub bottom_up_evaluated : (q : Q) → is_evaluated q ≡ true → bottom_up q ≡ q
unfolding is_evaluated bottom_up
bottom_up_evaluated (const b) h = refl
bottom_up_evaluated (and_q qs) h = bottom_up_proper (and_q qs) h
bottom_up_evaluated (or_q qs) h = bottom_up_proper (or_q qs) h
bottom_up_evaluated (not_q q) h = bottom_up_proper (not_q q) h
bottom_up_evaluated (atom a) h = bottom_up_proper (atom a) h

bottom_up_list_evaluated : (qs : Qs) → all_evaluated qs ≡ true → bottom_up_list qs ≡ qs
unfolding all_evaluated bottom_up
bottom_up_list_evaluated nil h = refl
bottom_up_list_evaluated (cons q qs) h =
    ground (arith, bottom_up_evaluated q, bottom_up_list_evaluated qs)

pub bottom_up_idem : (q : Q) → bottom_up (bottom_up q) ≡ bottom_up q
bottom_up_idem q = bottom_up_evaluated (bottom_up q) (bottom_up-evaluated q)

pub bottom_up_list_idem : (qs : Qs) → bottom_up_list (bottom_up_list qs) ≡ bottom_up_list qs
bottom_up_list_idem qs = bottom_up_list_evaluated (bottom_up_list qs) (bottom_up_list-evaluated qs)

-- The depth does not grow.
scan_depth : Scan → ℕ
scan_depth (returned q) = depth q
scan_depth (kept qs) = depth_list qs

scan_constants-depth-le :
    (is_and : Bool) (qs : Qs) → scan_depth (scan_constants is_and qs) ≤ depth_list qs
unfolding scan_constants scan_depth depth
scan_constants-depth-le is_and nil = omega arith
scan_constants-depth-le is_and (cons (const b) qs) =
    ground (arith, scan_constants-depth-le is_and qs)
scan_constants-depth-le is_and (cons _ qs) = ground (arith, scan_constants-depth-le is_and qs)

finish-depth-le : (is_and : Bool) (s : Scan) → depth (finish is_and s) ≤ suc (scan_depth s)
unfolding scan_depth depth
finish-depth-le is_and (returned q) = omega arith
finish-depth-le is_and (kept nil) = omega arith
finish-depth-le true (kept (cons q qs)) = omega arith
finish-depth-le false (kept (cons q qs)) = omega arith

eval_and_or_constants-depth-le :
    (is_and : Bool) (qs : Qs) → depth (eval_and_or_constants is_and qs) ≤ suc (depth_list qs)
unfolding eval_and_or_constants
eval_and_or_constants-depth-le is_and qs =
    omega
      (arith, finish-depth-le is_and (scan_constants is_and qs), scan_constants-depth-le is_and qs)

negate-depth-le : (q : Q) → depth (negate q) ≤ suc (depth q)
unfolding negate depth
negate-depth-le (const b) = omega arith
negate-depth-le _ = omega arith

eval_atom-depth : (a : Atom) → depth (eval_atom a) ≡ 0
unfolding eval_atom depth
eval_atom-depth a = ground arith

mutual
  unfolding bottom_up depth

  pub bottom_up-depth-le : (q : Q) → depth (bottom_up q) ≤ depth q
  bottom_up-depth-le (and_q qs) =
      omega
        (arith, eval_and_or_constants-depth-le true (bottom_up_list qs), bottom_up_list-depth-le qs)
  bottom_up-depth-le (or_q qs) =
      omega (
        arith,
        eval_and_or_constants-depth-le false (bottom_up_list qs),
        bottom_up_list-depth-le qs,
      )
  bottom_up-depth-le (not_q q) = omega (arith, negate-depth-le (bottom_up q), bottom_up-depth-le q)
  bottom_up-depth-le (const b) = omega arith
  bottom_up-depth-le (atom a) = omega (arith, eval_atom-depth a)

  pub bottom_up_list-depth-le : (qs : Qs) → depth_list (bottom_up_list qs) ≤ depth_list qs
  bottom_up_list-depth-le nil = omega arith
  bottom_up_list-depth-le (cons q qs) =
      omega (arith, bottom_up-depth-le q, bottom_up_list-depth-le qs)
