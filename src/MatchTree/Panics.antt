-- ===== src/MatchTree/Panics.antt =====
-- matchiter.go and matchtree.go: where matches panics on a slice of the content.
use zoekt_archived.Prelude.{
  ℕ, ◌+◌, ◌%◌, ◌^◌, Bool, false, not, ◌&&◌, ◌||◌, List, [], ◌∷◌, Option, none, some, length, ltb,
  if◌then◌else◌,
}
use zoekt_archived.MatchTree.{
  Candidate, Provider, SubstrMatchTree, Leaf, Tree, Trees, doc, brute_force, no_match, branch_query,
  regexp, substr, and_t, or_t, not_t, no_visit, leaf, nil, cons,
}
use zoekt_archived.MatchTree.Eval.{
  cost_memory, cost_content, is_empty, locate, known_of, eval_match_tree, matches,
}

module _ {R : Type 0} (cp : Provider R) where
  -- The slices of matchContent: content[byteOffset:byteOffset+uint32(len(substrBytes))], content[byteOffset:].
  -- (Go allows a slice to go past the length up to the capacity; here it panics there as well.)
  unfoldable pub slice_panics : Candidate → Bool
  unfolding locate
  slice_panics m =
      let c = locate cp m in
      let size = length (cp.content m.file_name) in
      let end = (c.byte_offset + length c.substr_bytes) % 2 ^ 32 in
      if c.case_sensitive then ltb end c.byte_offset || ltb size end else ltb size c.byte_offset

  unfoldable pub any_panics : List Candidate → Bool
  unfolding slice_panics
  any_panics [] = false
  any_panics (m ∷ ms) = slice_panics m || any_panics ms

  unfoldable pub substr_panics : {I : Type 0} → ℕ → SubstrMatchTree I → Bool
  unfolding is_empty any_panics
  substr_panics cost t =
      if is_empty t.current
      then false
      else if t.file_name && ltb cost cost_memory
      then false
      else if not t.file_name && ltb cost cost_content
      then false
      else any_panics t.current

  unfoldable pub leaf_panics : {I : Type 0} → ℕ → Leaf I R → Bool
  unfolding substr_panics
  leaf_panics cost (doc t) = false
  leaf_panics cost (brute_force t) = false
  leaf_panics cost no_match = false
  leaf_panics cost (branch_query t) = false
  leaf_panics cost (regexp t) = false
  leaf_panics cost (substr t) = substr_panics cost t

-- evalMatchTree does not call matches on a node with an entry.
unfoldable pub eval_panics : Option Bool → Bool → Bool
eval_panics (some v) b = false
eval_panics none b = b

-- The candidates that matches checks: the loop of And ends at a sure answer no, that of Or does not.
module _ {I R : Type 0} (cp : Provider R) (cost : ℕ) where
  unfoldable mutual
    pub panics : Tree I R → Bool
    panics (and_t k ts) = and_panics ts
    panics (or_t k ts) = or_panics ts
    panics (not_t k t) = eval_panics (known_of t) (panics t)
    panics (no_visit k t) = panics t
    panics (leaf k l) = leaf_panics cp cost l

    pub and_panics : Trees I R → Bool
    and_panics nil = false
    and_panics (cons t ts) =
        let r = eval_match_tree (known_of t) t (matches cp cost t) in
        let later = and_panics ts in
        eval_panics (known_of t) (panics t) || (not (r.sure && not r.matched) && later)

    pub or_panics : Trees I R → Bool
    or_panics nil = false
    or_panics (cons t ts) = eval_panics (known_of t) (panics t) || or_panics ts
