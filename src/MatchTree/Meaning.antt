-- ===== src/MatchTree/Meaning.antt =====
-- The truth value of a prepared match tree on a document, with no cost levels and no map of results.
use zoekt_archived.Prelude.{Bool, true, false, not, ◌&&◌, ◌||◌, ◌≡◌, refl, List, [], ◌∷◌, arith}
use zoekt_archived.MatchTree.{
  Candidate, Provider, Leaf, Tree, Trees, doc, brute_force, no_match, branch_query, regexp, substr,
  and_t, or_t, not_t, no_visit, leaf, nil, cons,
}
use zoekt_archived.MatchTree.Eval.{
  is_empty, match_content, locate, check_candidate, prune, find_candidates, branch_matches,
}

module _ {R : Type 0} (cp : Provider R) where
  unfoldable pub any_matches : List Candidate → Bool
  any_matches [] = false
  any_matches (m ∷ ms) = (check_candidate cp m).1 || any_matches ms

  unfoldable pub leaf_meaning : {I : Type 0} → Leaf I R → Bool
  unfolding any_matches
  leaf_meaning (doc t) = not (is_empty t.current)
  leaf_meaning (brute_force t) = true
  leaf_meaning no_match = false
  leaf_meaning (branch_query t) = branch_matches t
  leaf_meaning (regexp t) = not (is_empty (find_candidates cp t))
  leaf_meaning (substr t) = any_matches t.current

  -- Checking a candidate again gives the same answer.
  check_candidate_again :
      (m : Candidate) → (check_candidate cp (check_candidate cp m).0).1 ≡ (check_candidate cp m).1
  unfolding check_candidate match_content locate
  check_candidate_again m = ground arith

  pub not-is_empty-prune : (ms : List Candidate) → not (is_empty (prune cp ms)) ≡ any_matches ms
  unfolding prune any_matches is_empty
  not-is_empty-prune [] = refl
  not-is_empty-prune (m ∷ ms) = ground (arith, not-is_empty-prune ms)

  pub any_matches-prune : (ms : List Candidate) → any_matches (prune cp ms) ≡ any_matches ms
  unfolding prune any_matches
  any_matches-prune [] = refl
  any_matches-prune (m ∷ ms) = ground (arith, any_matches-prune ms, check_candidate_again m)

  pub any_matches_empty : (ms : List Candidate) → is_empty ms ≡ true → any_matches ms ≡ false
  unfolding any_matches is_empty
  any_matches_empty [] h = refl
  any_matches_empty (m ∷ ms) h = cc

module _ {I R : Type 0} (cp : Provider R) where
  unfoldable mutual
    pub meaning : Tree I R → Bool
    meaning (and_t k ts) = all_meaning ts
    meaning (or_t k ts) = any_meaning ts
    meaning (not_t k t) = not (meaning t)
    meaning (no_visit k t) = meaning t
    meaning (leaf k l) = leaf_meaning cp l

    pub all_meaning : Trees I R → Bool
    all_meaning nil = true
    all_meaning (cons t ts) = meaning t && all_meaning ts

    pub any_meaning : Trees I R → Bool
    any_meaning nil = false
    any_meaning (cons t ts) = meaning t || any_meaning ts
