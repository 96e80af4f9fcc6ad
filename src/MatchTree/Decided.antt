-- ===== src/MatchTree/Decided.antt =====
-- matchtree.go: at the highest cost every answer of matches is sure, so eval.go's panic is not reached.
use zoekt_archived.Prelude.{
  Bool, true, false, ◌&&◌, ◌||◌, ◌≡◌, refl, Option, none, some, arith, if◌then◌else◌,
}
use zoekt_archived.MatchTree.{
  Provider, Leaf, Tree, Trees, doc, brute_force, no_match, branch_query, regexp, substr, and_t,
  or_t, not_t, no_visit, leaf, nil, cons,
}
use zoekt_archived.MatchTree.Eval.{
  Verdict, substr_matches, regexp_matches, leaf_matches, known_of, eval_match_tree, matches,
  and_loop, or_loop, cost_regexp,
}

module _ {I R : Type 0} (cp : Provider R) where
  leaf_matches-sure : (l : Leaf I R) → (leaf_matches cp cost_regexp l).sure ≡ true
  unfolding leaf_matches substr_matches regexp_matches
  leaf_matches-sure (doc t) = refl
  leaf_matches-sure (brute_force t) = refl
  leaf_matches-sure no_match = refl
  leaf_matches-sure (branch_query t) = refl
  leaf_matches-sure (regexp t) = refl
  leaf_matches-sure (substr t) = ground arith

  eval_match_tree-sure :
      (k : Option Bool) (t : Tree I R) (r : Verdict (Tree I R))
      → r.sure ≡ true
      → (eval_match_tree k t r).sure ≡ true
  unfolding eval_match_tree
  eval_match_tree-sure (some v) t r h = refl
  eval_match_tree-sure none t r h = ground arith

  mutual
    unfolding matches

    pub matches-sure : (t : Tree I R) → (matches cp cost_regexp t).sure ≡ true
    matches-sure (and_t k ts) = and_loop-sure ts true refl
    matches-sure (or_t k ts) = or_loop-sure ts false true refl
    matches-sure (not_t k t) =
        eval_match_tree-sure (known_of t) t (matches cp cost_regexp t) (matches-sure t)
    matches-sure (no_visit k t) = matches-sure t
    matches-sure (leaf k l) = leaf_matches-sure l

    and_loop-sure :
        (ts : Trees I R) (sure : Bool) → sure ≡ true → (and_loop cp cost_regexp sure ts).sure ≡ true
    and_loop-sure nil sure h = h
    and_loop-sure (cons t ts) sure h =
        let r = eval_match_tree (known_of t) t (matches cp cost_regexp t) in
        let e = eval_match_tree-sure (known_of t) t (matches cp cost_regexp t) (matches-sure t) in
        let later = and_loop-sure ts (sure && r.sure) (ground arith) in ground arith

    or_loop-sure :
        (ts : Trees I R) (matched sure : Bool)
        → sure ≡ true
        → (or_loop cp cost_regexp matched sure ts).sure ≡ true
    or_loop-sure nil matched sure h = h
    or_loop-sure (cons t ts) matched sure h =
        let r = eval_match_tree (known_of t) t (matches cp cost_regexp t) in
        let e = eval_match_tree-sure (known_of t) t (matches cp cost_regexp t) (matches-sure t) in
        or_loop-sure ts (if r.sure then matched || r.matched else matched) (sure && r.sure)
          (ground arith)
