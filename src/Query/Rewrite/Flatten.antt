-- ===== src/Query/Rewrite/Flatten.antt =====
-- query/query.go: flatten.
use zoekt_archived.Prelude.{
  ℕ, suc, ◌+◌, ◌≤◌, ◌<◌, ◌≡◌, refl, ap, Bool, true, false, not, ◌&&◌, arith,
}
use zoekt_archived.Query.Syntax.{Q, Qs, and_q, or_q, not_q, const, atom, nil, cons}
use zoekt_archived.Query.Rewrite.{
  and_or, append, splice, single_or, flatten, flatten_and_or, size, size_list,
}

-- No And with one child or an And among its children, and the same for Or.
abbrev is_single : Qs → Bool
is_single (cons q nil) = true
is_single _ = false

abbrev same_type : Bool → Q → Bool
same_type true (and_q qs) = true
same_type false (or_q qs) = true
same_type _ q = false

unfoldable mutual
  pub is_flat : Q → Bool
  is_flat (and_q qs) = not (is_single qs) && all_flat true qs
  is_flat (or_q qs) = not (is_single qs) && all_flat false qs
  is_flat (not_q q) = is_flat q
  is_flat (const b) = true
  is_flat (atom a) = true

  pub all_flat : Bool → Qs → Bool
  all_flat is_and nil = true
  all_flat is_and (cons q qs) = (not (same_type is_and q) && is_flat q) && all_flat is_and qs

-- A round that reports no change changed nothing, and found a flat query.
splice-Stays :
    (is_and : Bool) (ch : Q) (qs : Qs) (r : Q × Bool) (rs : Qs × Bool)
    → (r.1 ≡ false → (r.0 ≡ ch) × (is_flat ch ≡ true))
    → (rs.1 ≡ false → (rs.0 ≡ qs) × (all_flat is_and qs ≡ true))
    → (splice is_and r.0 r.1 rs).1 ≡ false
    → ((splice is_and r.0 r.1 rs).0 ≡ cons ch qs) × (all_flat is_and (cons ch qs) ≡ true)
unfolding is_flat
splice-Stays true ch qs (and_q x, b) rs h k e = ground arith
splice-Stays true ch qs (or_q x, b) rs h k e = ground arith
splice-Stays true ch qs (_, b) rs h k e = ground arith
splice-Stays false ch qs (and_q x, b) rs h k e = ground arith
splice-Stays false ch qs (or_q x, b) rs h k e = ground arith
splice-Stays false ch qs (_, b) rs h k e = ground arith

single_or-Stays :
    (is_and : Bool) (qs : Qs) (r : Qs × Bool)
    → (r.1 ≡ false → (r.0 ≡ qs) × (all_flat is_and qs ≡ true))
    → (single_or qs (and_or is_and r.0, r.1)).1 ≡ false
    → ((single_or qs (and_or is_and r.0, r.1)).0 ≡ and_or is_and qs)
      × ((not (is_single qs) && all_flat is_and qs) ≡ true)
single_or-Stays is_and nil r h e = ground arith
single_or-Stays is_and (cons q nil) r h e = cc
single_or-Stays is_and (cons q (cons q' qs)) r h e = ground arith

mutual
  unfolding flatten is_flat

  pub flatten-Stays : (q : Q) → (flatten q).1 ≡ false → ((flatten q).0 ≡ q) × (is_flat q ≡ true)
  flatten-Stays (and_q qs) e =
      single_or-Stays true qs (flatten_and_or true qs) (flatten_and_or-Stays true qs) e
  flatten-Stays (or_q qs) e =
      single_or-Stays false qs (flatten_and_or false qs) (flatten_and_or-Stays false qs) e
  flatten-Stays (not_q q) e = (ap not_q (flatten-Stays q e).0, (flatten-Stays q e).1)
  flatten-Stays (const b) e = (refl, refl)
  flatten-Stays (atom a) e = (refl, refl)

  flatten_and_or-Stays :
      (is_and : Bool) (qs : Qs)
      → (flatten_and_or is_and qs).1 ≡ false
      → ((flatten_and_or is_and qs).0 ≡ qs) × (all_flat is_and qs ≡ true)
  flatten_and_or-Stays is_and nil e = (refl, refl)
  flatten_and_or-Stays is_and (cons q qs) e =
      splice-Stays is_and q qs (flatten q) (flatten_and_or is_and qs) (flatten-Stays q)
        (flatten_and_or-Stays is_and qs) e

-- A round makes the query no larger, and smaller if it reports a change.
size_list-append : (qs rs : Qs) → size_list (append qs rs) ≡ size_list qs + size_list rs
unfolding append size
size_list-append nil rs = omega arith
size_list-append (cons q qs) rs = omega (arith, size_list-append qs rs)

abbrev Shrinks : ℕ → ℕ → Bool → Type 0
Shrinks after before changed = (after ≤ before) × (changed ≡ true → after < before)

splice-Shrinks :
    (is_and : Bool) (r : Q × Bool) (n m : ℕ) (rs : Qs × Bool)
    → Shrinks (size r.0) n r.1
    → Shrinks (size_list rs.0) m rs.1
    → Shrinks (size_list (splice is_and r.0 r.1 rs).0) (n + m) (splice is_and r.0 r.1 rs).1
unfolding size
splice-Shrinks true (and_q x, b) n m rs h k = ground (arith, size_list-append x rs.0)
splice-Shrinks true (or_q x, b) n m rs h k = ground arith
splice-Shrinks true (_, b) n m rs h k = ground arith
splice-Shrinks false (or_q x, b) n m rs h k = ground (arith, size_list-append x rs.0)
splice-Shrinks false (and_q x, b) n m rs h k = ground arith
splice-Shrinks false (_, b) n m rs h k = ground arith

single_or-Shrinks :
    (is_and : Bool) (qs : Qs) (r : Qs × Bool)
    → Shrinks (size_list r.0) (size_list qs) r.1
    → Shrinks
        (size (single_or qs (and_or is_and r.0, r.1)).0)
        (suc (size_list qs))
        (single_or qs (and_or is_and r.0, r.1)).1
unfolding size
single_or-Shrinks true nil r h = ground arith
single_or-Shrinks true (cons q nil) r h = ground arith
single_or-Shrinks true (cons q (cons q' qs)) r h = ground arith
single_or-Shrinks false nil r h = ground arith
single_or-Shrinks false (cons q nil) r h = ground arith
single_or-Shrinks false (cons q (cons q' qs)) r h = ground arith

mutual
  unfolding flatten size

  pub flatten-Shrinks : (q : Q) → Shrinks (size (flatten q).0) (size q) (flatten q).1
  flatten-Shrinks (and_q qs) =
      single_or-Shrinks true qs (flatten_and_or true qs) (flatten_and_or-Shrinks true qs)
  flatten-Shrinks (or_q qs) =
      single_or-Shrinks false qs (flatten_and_or false qs) (flatten_and_or-Shrinks false qs)
  flatten-Shrinks (not_q q) = ground (arith, flatten-Shrinks q)
  flatten-Shrinks (const b) = ground arith
  flatten-Shrinks (atom a) = ground arith

  flatten_and_or-Shrinks :
      (is_and : Bool) (qs : Qs)
      → Shrinks (size_list (flatten_and_or is_and qs).0) (size_list qs) (flatten_and_or is_and qs).1
  flatten_and_or-Shrinks is_and nil = ground arith
  flatten_and_or-Shrinks is_and (cons q qs) =
      splice-Shrinks is_and (flatten q) (size q) (size_list qs) (flatten_and_or is_and qs)
        (flatten-Shrinks q) (flatten_and_or-Shrinks is_and qs)

-- A flat query is left as it is.
splice_flat :
    (is_and : Bool) (q : Q) (qs : Qs)
    → same_type is_and q ≡ false
    → splice is_and q false (qs, false) ≡ (cons q qs, false)
splice_flat true (and_q x) qs h = cc
splice_flat true _ qs h = refl
splice_flat false (or_q x) qs h = cc
splice_flat false _ qs h = refl

single_or_flat : (qs : Qs) (r : Q × Bool) → is_single qs ≡ false → single_or qs r ≡ r
single_or_flat nil r h = refl
single_or_flat (cons q nil) r h = cc
single_or_flat (cons q (cons q' qs)) r h = refl

mutual
  unfolding flatten is_flat

  pub flatten_flat : (q : Q) → is_flat q ≡ true → flatten q ≡ (q, false)
  flatten_flat (and_q qs) h =
      ground (arith, single_or_flat qs (and_q qs, false), flatten_and_or_flat true qs)
  flatten_flat (or_q qs) h =
      ground (arith, single_or_flat qs (or_q qs, false), flatten_and_or_flat false qs)
  flatten_flat (not_q q) h = ground (arith, flatten_flat q)
  flatten_flat (const b) h = refl
  flatten_flat (atom a) h = refl

  flatten_and_or_flat :
      (is_and : Bool) (qs : Qs) → all_flat is_and qs ≡ true → flatten_and_or is_and qs ≡ (qs, false)
  flatten_and_or_flat is_and nil h = refl
  flatten_and_or_flat is_and (cons q qs) h =
      ground (arith, flatten_flat q, flatten_and_or_flat is_and qs, splice_flat is_and q qs)
