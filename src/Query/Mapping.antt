-- ===== src/Query/Mapping.antt =====
-- query/query.go: what Map does to the meaning of a query, for a function that rewrites leaves.
use zoekt_archived.Prelude.{◌≡◌, refl, ap, ◌∙◌, Bool, true, false, not, ◌&&◌, arith}
use zoekt_archived.Query.Syntax.{Atom, Q, Qs, and_q, or_q, not_q, const, atom, nil, cons}
use zoekt_archived.Query.Meaning.{holds, holds_all, holds_any}
use zoekt_archived.Query.Rewrite.{map_query, map_query_list}

abbrev pub is_atom : Q → Bool
is_atom (atom a) = true
is_atom _ = false

-- `f` leaves inner nodes and constants alone, and what it makes of a leaf means under v what the leaf
-- means under w.
pub record RewritesLeaves (v w : Atom → Bool) (f : Q → Q) : Type 0 where
  pub others : (q : Q) → is_atom q ≡ false → f q ≡ q
  pub leaves : (a : Atom) → holds v (f (atom a)) ≡ w a

module _ (v w : Atom → Bool) (f : Q → Q) (rewrites : RewritesLeaves v w f) where
  mutual
    unfolding map_query holds

    pub holds-map_query : (q : Q) → holds v (map_query f q) ≡ holds w q
    holds-map_query (and_q qs) =
        ap (holds v) (rewrites.others (and_q (map_query_list f qs)) refl)
        ∙ (holds-map_query_list qs).0
    holds-map_query (or_q qs) =
        ap (holds v) (rewrites.others (or_q (map_query_list f qs)) refl)
        ∙ (holds-map_query_list qs).1
    holds-map_query (not_q q) =
        ap (holds v) (rewrites.others (not_q (map_query f q)) refl) ∙ ap not (holds-map_query q)
    holds-map_query (const b) = ap (holds v) (rewrites.others (const b) refl)
    holds-map_query (atom a) = rewrites.leaves a

    holds-map_query_list :
        (qs : Qs)
        → (holds_all v (map_query_list f qs) ≡ holds_all w qs)
          × (holds_any v (map_query_list f qs) ≡ holds_any w qs)
    holds-map_query_list nil = (refl, refl)
    holds-map_query_list (cons q qs) = ground (arith, holds-map_query q, holds-map_query_list qs)

-- Every leaf satisfies p.
unfoldable mutual
  pub all_atoms : (Atom → Bool) → Q → Bool
  all_atoms p (and_q qs) = all_atoms_list p qs
  all_atoms p (or_q qs) = all_atoms_list p qs
  all_atoms p (not_q q) = all_atoms p q
  all_atoms p (const b) = true
  all_atoms p (atom a) = p a

  pub all_atoms_list : (Atom → Bool) → Qs → Bool
  all_atoms_list p nil = true
  all_atoms_list p (cons q qs) = all_atoms p q && all_atoms_list p qs

module _ (p r : Atom → Bool) (f : Q → Q) (others : (q : Q) → is_atom q ≡ false → f q ≡ q)
    (leaves : (a : Atom) → p a ≡ true → all_atoms r (f (atom a)) ≡ true) where
  mutual
    unfolding map_query all_atoms

    pub all_atoms-map_query : (q : Q) → all_atoms p q ≡ true → all_atoms r (map_query f q) ≡ true
    all_atoms-map_query (and_q qs) h =
        ap (all_atoms r) (others (and_q (map_query_list f qs)) refl) ∙ all_atoms-map_query_list qs h
    all_atoms-map_query (or_q qs) h =
        ap (all_atoms r) (others (or_q (map_query_list f qs)) refl) ∙ all_atoms-map_query_list qs h
    all_atoms-map_query (not_q q) h =
        ap (all_atoms r) (others (not_q (map_query f q)) refl) ∙ all_atoms-map_query q h
    all_atoms-map_query (const b) h = ap (all_atoms r) (others (const b) refl)
    all_atoms-map_query (atom a) h = leaves a h

    all_atoms-map_query_list :
        (qs : Qs) → all_atoms_list p qs ≡ true → all_atoms_list r (map_query_list f qs) ≡ true
    all_atoms-map_query_list nil h = refl
    all_atoms-map_query_list (cons q qs) h =
        ground (arith, all_atoms-map_query q, all_atoms-map_query_list qs)

mutual
  unfolding all_atoms

  pub all_atoms-every : (q : Q) → all_atoms (λ a. true) q ≡ true
  all_atoms-every (and_q qs) = all_atoms_list-every qs
  all_atoms-every (or_q qs) = all_atoms_list-every qs
  all_atoms-every (not_q q) = all_atoms-every q
  all_atoms-every (const b) = refl
  all_atoms-every (atom a) = refl

  all_atoms_list-every : (qs : Qs) → all_atoms_list (λ a. true) qs ≡ true
  all_atoms_list-every nil = refl
  all_atoms_list-every (cons q qs) = ground (arith, all_atoms-every q, all_atoms_list-every qs)
