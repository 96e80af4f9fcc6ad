-- ===== src/MatchTree/Leaves.antt =====
-- matchtree.go: the leaves' matches methods against the meaning of a leaf.
use zoekt_archived.Prelude.{true, not, ◌≡◌, refl, ap, ℕ, arith}
use zoekt_archived.MatchTree.{
  Provider, SubstrMatchTree, RegexpMatchTree, Leaf, doc, brute_force, no_match, branch_query,
  regexp, substr,
}
use zoekt_archived.MatchTree.Eval.{
  is_empty, find_candidates, substr_matches, regexp_matches, leaf_matches,
}
use zoekt_archived.MatchTree.Meaning.{
  any_matches, leaf_meaning, not-is_empty-prune, any_matches-prune, any_matches_empty,
}

-- The leaves: matches answers with the leaf's meaning when it is sure, and what it prunes keeps it.
substr_matches_lem :
    {I R : Type 0} (cp : Provider R) (cost : ℕ) (t : SubstrMatchTree I)
    → ((substr_matches cp cost t).sure ≡ true
        → (substr_matches cp cost t).matched ≡ any_matches cp t.current)
      × (any_matches cp (substr_matches cp cost t).tree.current ≡ any_matches cp t.current)
unfolding substr_matches
substr_matches_lem cp cost t = ground (
  arith,
  not-is_empty-prune cp t.current,
  any_matches-prune cp t.current,
  any_matches_empty cp t.current,
)

regexp_matches_lem :
    {R : Type 0} (cp : Provider R) (cost : ℕ) (t : RegexpMatchTree R)
    → ((regexp_matches cp cost t).sure ≡ true
        → (regexp_matches cp cost t).matched ≡ not (is_empty (find_candidates cp t)))
      × (find_candidates cp (regexp_matches cp cost t).tree ≡ find_candidates cp t)
unfolding regexp_matches find_candidates
regexp_matches_lem cp cost t = ground arith

pub leaf_matches_lem :
    {I R : Type 0} (cp : Provider R) (cost : ℕ) (l : Leaf I R)
    → ((leaf_matches cp cost l).sure ≡ true → (leaf_matches cp cost l).matched ≡ leaf_meaning cp l)
      × (leaf_meaning cp (leaf_matches cp cost l).tree ≡ leaf_meaning cp l)
unfolding leaf_matches leaf_meaning
leaf_matches_lem cp cost (doc t) = (λ _. refl, refl)
leaf_matches_lem cp cost (brute_force t) = (λ _. refl, refl)
leaf_matches_lem cp cost no_match = (λ _. refl, refl)
leaf_matches_lem cp cost (branch_query t) = (λ _. refl, refl)
leaf_matches_lem cp cost (regexp t) = (
  (regexp_matches_lem cp cost t).0,
  ap (λ ms. not (is_empty ms)) (regexp_matches_lem cp cost t).1,
)
leaf_matches_lem cp cost (substr t) = substr_matches_lem cp cost t
