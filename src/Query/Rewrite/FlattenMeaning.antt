-- ===== src/Query/Rewrite/FlattenMeaning.antt =====
-- query/query.go: flatten keeps the truth value and the shape that evalConstants left.
use zoekt_archived.Prelude.{◌≡◌, refl, ap, Bool, true, false, not, ◌&&◌, ◌||◌, arith}
use zoekt_archived.Query.Syntax.{Atom, Q, Qs, and_q, or_q, not_q, const, atom, nil, cons}
use zoekt_archived.Query.Meaning.{holds, holds_all, holds_any}
use zoekt_archived.Query.Rewrite.{and_or, append, splice, single_or, flatten, flatten_and_or}
use zoekt_archived.Query.Rewrite.BottomUp.{is_nil, is_proper, all_proper, is_evaluated}

module _ (v : Atom → Bool) where
  holds_all-append : (qs rs : Qs) → holds_all v (append qs rs) ≡ (holds_all v qs && holds_all v rs)
  unfolding append holds
  holds_all-append nil rs = refl
  holds_all-append (cons q qs) rs = ground (arith, holds_all-append qs rs)

  holds_any-append : (qs rs : Qs) → holds_any v (append qs rs) ≡ (holds_any v qs || holds_any v rs)
  unfolding append holds
  holds_any-append nil rs = refl
  holds_any-append (cons q qs) rs = ground (arith, holds_any-append qs rs)

  abbrev combined : Bool → Qs → Bool
  combined true qs = holds_all v qs
  combined false qs = holds_any v qs

  holds-splice :
      (is_and : Bool) (q : Q) (qs : Qs) (r : Q × Bool) (rs : Qs × Bool)
      → holds v r.0 ≡ holds v q
      → combined is_and rs.0 ≡ combined is_and qs
      → combined is_and (splice is_and r.0 r.1 rs).0 ≡ combined is_and (cons q qs)
  unfolding holds
  holds-splice true q qs (and_q x, b) rs h k = ground (arith, holds_all-append x rs.0)
  holds-splice true q qs (or_q x, b) rs h k = ground arith
  holds-splice true q qs (_, b) rs h k = ground arith
  holds-splice false q qs (or_q x, b) rs h k = ground (arith, holds_any-append x rs.0)
  holds-splice false q qs (and_q x, b) rs h k = ground arith
  holds-splice false q qs (_, b) rs h k = ground arith

  holds-single_or :
      (is_and : Bool) (qs : Qs) (r : Qs × Bool)
      → combined is_and r.0 ≡ combined is_and qs
      → holds v (single_or qs (and_or is_and r.0, r.1)).0 ≡ combined is_and qs
  unfolding holds
  holds-single_or true nil r h = h
  holds-single_or true (cons q nil) r h = ground arith
  holds-single_or true (cons q (cons q' qs)) r h = h
  holds-single_or false nil r h = h
  holds-single_or false (cons q nil) r h = ground arith
  holds-single_or false (cons q (cons q' qs)) r h = h

  mutual
    unfolding flatten holds

    pub holds-flatten : (q : Q) → holds v (flatten q).0 ≡ holds v q
    holds-flatten (and_q qs) =
        holds-single_or true qs (flatten_and_or true qs) (combined-flatten true qs)
    holds-flatten (or_q qs) =
        holds-single_or false qs (flatten_and_or false qs) (combined-flatten false qs)
    holds-flatten (not_q q) = ap not (holds-flatten q)
    holds-flatten (const b) = refl
    holds-flatten (atom a) = refl

    combined-flatten :
        (is_and : Bool) (qs : Qs)
        → combined is_and (flatten_and_or is_and qs).0 ≡ combined is_and qs
    combined-flatten is_and nil = refl
    combined-flatten is_and (cons q qs) =
        holds-splice is_and q qs (flatten q) (flatten_and_or is_and qs) (holds-flatten q)
          (combined-flatten is_and qs)

-- The proper shape is kept.
all_proper-append :
    (qs rs : Qs) → all_proper qs ≡ true → all_proper rs ≡ true → all_proper (append qs rs) ≡ true
unfolding append is_proper
all_proper-append nil rs h k = k
all_proper-append (cons q qs) rs h k = ground (arith, all_proper-append qs rs)

is_nil-append : (qs rs : Qs) → is_nil qs ≡ false → is_nil (append qs rs) ≡ false
unfolding append
is_nil-append nil rs h = cc
is_nil-append (cons q qs) rs h = refl

abbrev IsProperList : Qs → Type 0
IsProperList qs = (is_nil qs ≡ false) × (all_proper qs ≡ true)

splice-proper :
    (is_and : Bool) (r : Q × Bool) (rs : Qs × Bool)
    → is_proper r.0 ≡ true
    → all_proper rs.0 ≡ true
    → IsProperList (splice is_and r.0 r.1 rs).0
unfolding is_proper
splice-proper true (and_q x, b) rs h k =
    ground (arith, all_proper-append x rs.0, is_nil-append x rs.0)
splice-proper true (or_q x, b) rs h k = ground arith
splice-proper true (_, b) rs h k = ground arith
splice-proper false (or_q x, b) rs h k =
    ground (arith, all_proper-append x rs.0, is_nil-append x rs.0)
splice-proper false (and_q x, b) rs h k = ground arith
splice-proper false (_, b) rs h k = ground arith

single_or-proper :
    (is_and : Bool) (qs : Qs) (r : Qs × Bool)
    → all_proper qs ≡ true
    → IsProperList r.0
    → is_proper (single_or qs (and_or is_and r.0, r.1)).0 ≡ true
unfolding is_proper
single_or-proper true nil r h k = ground arith
single_or-proper true (cons q nil) r h k = ground arith
single_or-proper true (cons q (cons q' qs)) r h k = ground arith
single_or-proper false nil r h k = ground arith
single_or-proper false (cons q nil) r h k = ground arith
single_or-proper false (cons q (cons q' qs)) r h k = ground arith

mutual
  unfolding flatten is_proper

  flatten-proper : (q : Q) → is_proper q ≡ true → is_proper (flatten q).0 ≡ true
  flatten-proper (and_q nil) h = h
  flatten-proper (and_q (cons q qs)) h =
      single_or-proper true (cons q qs) (flatten_and_or true (cons q qs)) h
        (flatten_and_or-proper true (cons q qs) refl h)
  flatten-proper (or_q nil) h = h
  flatten-proper (or_q (cons q qs)) h =
      single_or-proper false (cons q qs) (flatten_and_or false (cons q qs)) h
        (flatten_and_or-proper false (cons q qs) refl h)
  flatten-proper (not_q q) h = flatten-proper q h
  flatten-proper (const b) h = h
  flatten-proper (atom a) h = h

  flatten_and_or-proper :
      (is_and : Bool) (qs : Qs)
      → is_nil qs ≡ false
      → all_proper qs ≡ true
      → IsProperList (flatten_and_or is_and qs).0
  flatten_and_or-proper is_and nil n h = cc
  flatten_and_or-proper is_and (cons q nil) n h =
      splice-proper is_and (flatten q) (nil, false) (flatten-proper q (ground arith)) refl
  flatten_and_or-proper is_and (cons q (cons q' qs)) n h =
      splice-proper is_and (flatten q) (flatten_and_or is_and (cons q' qs))
        (flatten-proper q (ground arith))
        (flatten_and_or-proper is_and (cons q' qs) refl (ground arith)).1

is_evaluated_of_proper : (q : Q) → is_proper q ≡ true → is_evaluated q ≡ true
unfolding is_evaluated is_proper
is_evaluated_of_proper (const b) h = refl
is_evaluated_of_proper _ h = h

pub flatten-evaluated : (q : Q) → is_evaluated q ≡ true → is_evaluated (flatten q).0 ≡ true
unfolding is_evaluated
flatten-evaluated (const b) h = unfold flatten in refl
flatten-evaluated (and_q qs) h =
    is_evaluated_of_proper (flatten (and_q qs)).0 (flatten-proper (and_q qs) h)
flatten-evaluated (or_q qs) h =
    is_evaluated_of_proper (flatten (or_q qs)).0 (flatten-proper (or_q qs) h)
flatten-evaluated (not_q q) h =
    is_evaluated_of_proper (flatten (not_q q)).0 (flatten-proper (not_q q) h)
flatten-evaluated (atom a) h =
    is_evaluated_of_proper (flatten (atom a)).0 (flatten-proper (atom a) h)
