-- ===== src/Query/Rewrite/Simplify.antt =====
-- query/query.go: Simplify ends, keeps the meaning, and leaves a normal form.
use zoekt_archived.Prelude.{ℕ, zero, suc, ◌<◌, ◌≡◌, refl, ap, ◌∙◌, Bool, true, arith}
use zoekt_archived.Query.Syntax.{Atom, Q}
use zoekt_archived.Query.Meaning.{holds}
use zoekt_archived.Query.Rewrite.{flatten, flatten_loop, size, eval_constants, simplify}
use zoekt_archived.Query.Rewrite.BottomUp.{is_evaluated, bottom_up_evaluated}
use zoekt_archived.Query.Rewrite.Constants.{
  IsFaithful, holds-eval_constants, eval_constants-evaluated, eval_constants-bottom_up,
}
use zoekt_archived.Query.Rewrite.Flatten.{is_flat, flatten-Stays, flatten-Shrinks, flatten_flat}
use zoekt_archived.Query.Rewrite.FlattenMeaning.{holds-flatten, flatten-evaluated}

-- With fuel above the size the loop leaves by its own test.
flatten_loop-flat : (n : ℕ) (q : Q) → size q < n → is_flat (flatten_loop n q) ≡ true
unfolding flatten_loop
flatten_loop-flat zero q h = absurd (omega arith)
flatten_loop-flat (suc n) q h =
    ground (arith, flatten-Shrinks q, flatten-Stays q, flatten_loop-flat n (flatten q).0)

flatten_loop-evaluated :
    (n : ℕ) (q : Q) → is_evaluated q ≡ true → is_evaluated (flatten_loop n q) ≡ true
unfolding flatten_loop
flatten_loop-evaluated zero q h = h
flatten_loop-evaluated (suc n) q h =
    ground (arith, flatten-evaluated q, flatten_loop-evaluated n (flatten q).0)

flatten_loop_flat : (n : ℕ) (q : Q) → is_flat q ≡ true → flatten_loop n q ≡ q
unfolding flatten_loop
flatten_loop_flat zero q h = refl
flatten_loop_flat (suc n) q h = ground (arith, flatten_flat q)

holds-flatten_loop : (v : Atom → Bool) (n : ℕ) (q : Q) → holds v (flatten_loop n q) ≡ holds v q
unfolding flatten_loop
holds-flatten_loop v zero q = refl
holds-flatten_loop v (suc n) q =
    ground (arith, holds-flatten v q, holds-flatten_loop v n (flatten q).0)

pub holds-simplify : (v : Atom → Bool) → IsFaithful v → (q : Q) → holds v (simplify q) ≡ holds v q
unfolding simplify
holds-simplify v faithful q =
    holds-flatten_loop v (suc (size (eval_constants q))) (eval_constants q)
    ∙ holds-eval_constants v faithful q

-- The result of Simplify is flat (no And or Or with one child, or directly in one of its kind), and is
-- a constant or has no constant, no vacuous leaf and no empty And or Or in it.
pub simplify_normal : (q : Q) → (is_flat (simplify q) ≡ true) × (is_evaluated (simplify q) ≡ true)
unfolding simplify
simplify_normal q = (
  flatten_loop-flat (suc (size (eval_constants q))) (eval_constants q) (omega arith),
  flatten_loop-evaluated (suc (size (eval_constants q))) (eval_constants q)
      (eval_constants-evaluated q),
)

-- A normal query is left alone.
pub simplify_normal_fixed : (q : Q) → is_flat q ≡ true → is_evaluated q ≡ true → simplify q ≡ q
unfolding simplify
simplify_normal_fixed q flat evaluated =
    flatten_loop_flat (suc (size (eval_constants q))) (eval_constants q) (ap is_flat same ∙ flat)
    ∙ same
  where
    same : eval_constants q ≡ q
    same = eval_constants-bottom_up q ∙ bottom_up_evaluated q evaluated

-- Simplifying a simplified query changes nothing.
pub simplify_idem : (q : Q) → simplify (simplify q) ≡ simplify q
simplify_idem q = simplify_normal_fixed (simplify q) (simplify_normal q).0 (simplify_normal q).1
