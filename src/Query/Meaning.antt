-- ===== src/Query/Meaning.antt =====
-- The truth value of a query, given the truth value of each leaf: what the rewriting must keep.
use zoekt_archived.Prelude.{Bool, true, false, not, ◌&&◌, ◌||◌}
use zoekt_archived.Query.Syntax.{Atom, Q, Qs, and_q, or_q, not_q, const, atom, nil, cons}

unfoldable mutual
  pub holds : (Atom → Bool) → Q → Bool
  holds v (and_q qs) = holds_all v qs
  holds v (or_q qs) = holds_any v qs
  holds v (not_q q) = not (holds v q)
  holds v (const b) = b
  holds v (atom a) = v a

  pub holds_all : (Atom → Bool) → Qs → Bool
  holds_all v nil = true
  holds_all v (cons q qs) = holds v q && holds_all v qs

  pub holds_any : (Atom → Bool) → Qs → Bool
  holds_any v nil = false
  holds_any v (cons q qs) = holds v q || holds_any v qs
