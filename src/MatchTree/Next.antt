-- ===== src/MatchTree/Next.antt =====
-- matchtree.go: the nextDoc and prepare methods.
use zoekt_archived.Prelude.{
  ℕ, ◌+◌, ◌%◌, ◌^◌, true, false, not, List, [], ◌∷◌, none, bit_and, drop, ltb, ◌==◌, if◌then◌else◌,
}
use zoekt_archived.MatchTree.{
  MatchIterator, BruteForce, SubstrMatchTree, RegexpMatchTree, BranchQueryMatchTree, DocMatchTree,
  Leaf, Tree, Trees, doc, brute_force, no_match, branch_query, regexp, substr, and_t, or_t, not_t,
  no_visit, leaf, nil, cons, max_u32,
}

-- for len(t.docs) > 0 && t.docs[0] < doc { t.docs = t.docs[1:] }
unfoldable pub skip_before : ℕ → List ℕ → List ℕ
skip_before d [] = []
skip_before d (x ∷ xs) = if ltb x d then skip_before d xs else x ∷ xs

-- t.docs[:i] and t.docs[i:] for the first i with t.docs[i] != doc.
unfoldable pub split_at_doc : ℕ → List ℕ → List ℕ × List ℕ
split_at_doc d [] = ([], [])
split_at_doc d (x ∷ xs) =
    let (front, back) = split_at_doc d xs in if x == d then (x ∷ front, back) else ([], x ∷ xs)

unfoldable pub prepare_doc : ℕ → DocMatchTree → DocMatchTree
prepare_doc d t =
    let (front, back) = split_at_doc d (skip_before d t.docs) in
    record { docs = back; current = front }

unfoldable pub next_doc_of_docs : DocMatchTree → ℕ
next_doc_of_docs t = elim t.docs [ [] ↦ max_u32 | x ∷ xs ↦ x ]

unfoldable pub prepare_brute_force : ℕ → BruteForce → BruteForce
prepare_brute_force d t = record { first_done = true; doc_id = d }

-- `t.docID + 1` on uint32.
unfoldable pub next_doc_of_brute_force : BruteForce → ℕ
next_doc_of_brute_force t = if not t.first_done then 0 else (t.doc_id + 1) % 2 ^ 32

-- The loop of branchQueryMatchTree.nextDoc over fileMasks[i:].
unfoldable pub scan_masks : ℕ → ℕ → List ℕ → ℕ
scan_masks mask i [] = max_u32
scan_masks mask i (m ∷ ms) =
    let rest = scan_masks mask (i + 1) ms in if not (bit_and mask m == 0) then i else rest

unfoldable pub next_doc_of_branch_query : BranchQueryMatchTree → ℕ
unfolding scan_masks
next_doc_of_branch_query t =
    let start = if t.first_done then (t.doc_id + 1) % 2 ^ 32 else 0 in
    scan_masks t.mask start (drop start t.file_masks)

unfoldable pub prepare_branch_query : ℕ → BranchQueryMatchTree → BranchQueryMatchTree
prepare_branch_query d t = record t { first_done = true; doc_id = d }

unfoldable pub prepare_regexp : {R : Type 0} → ℕ → RegexpMatchTree R → RegexpMatchTree R
unfolding prepare_brute_force
prepare_regexp d t = record t {
  re_evaluated = false;
  found = [];
  brute_force = prepare_brute_force d t.brute_force;
}

unfoldable pub prepare_substr :
    {I : Type 0} → MatchIterator I → ℕ → SubstrMatchTree I → SubstrMatchTree I
prepare_substr it d t =
    let (cands, iterator) = it.candidates (it.prepare d t.match_iterator) in
    record t { match_iterator = iterator; current = cands; cont_evaluated = false }

module _ {I R : Type 0} (it : MatchIterator I) where
  unfoldable pub prepare_leaf : ℕ → Leaf I R → Leaf I R
  unfolding prepare_doc prepare_brute_force prepare_branch_query prepare_regexp prepare_substr
  prepare_leaf d (doc t) = doc (prepare_doc d t)
  prepare_leaf d (brute_force t) = brute_force (prepare_brute_force d t)
  prepare_leaf d no_match = no_match
  prepare_leaf d (branch_query t) = branch_query (prepare_branch_query d t)
  prepare_leaf d (regexp t) = regexp (prepare_regexp d t)
  prepare_leaf d (substr t) = substr (prepare_substr it d t)

  unfoldable pub next_doc_of_leaf : Leaf I R → ℕ × Leaf I R
  unfolding next_doc_of_docs next_doc_of_brute_force next_doc_of_branch_query
  next_doc_of_leaf (doc t) = (next_doc_of_docs t, doc t)
  next_doc_of_leaf (brute_force t) = (next_doc_of_brute_force t, brute_force t)
  next_doc_of_leaf no_match = (max_u32, no_match)
  next_doc_of_leaf (branch_query t) = (next_doc_of_branch_query t, branch_query t)
  next_doc_of_leaf (regexp t) = (next_doc_of_brute_force t.brute_force, regexp t)
  next_doc_of_leaf (substr t) =
      let (d, iterator) = it.next_doc t.match_iterator in
      (d, substr (record t { match_iterator = iterator }))

  unfoldable mutual
    pub prepare : ℕ → Tree I R → Tree I R
    prepare d (and_t k ts) = and_t k (prepare_all d ts)
    prepare d (or_t k ts) = or_t k (prepare_all d ts)
    prepare d (not_t k t) = not_t k (prepare d t)
    prepare d (no_visit k t) = no_visit k (prepare d t)
    prepare d (leaf k l) = leaf k (prepare_leaf d l)

    pub prepare_all : ℕ → Trees I R → Trees I R
    prepare_all d nil = nil
    prepare_all d (cons t ts) = cons (prepare d t) (prepare_all d ts)

  unfoldable mutual
    pub next_doc : Tree I R → ℕ × Tree I R
    next_doc (and_t k ts) = let r = max_next_doc 0 ts in (r.0, and_t k r.1)
    next_doc (or_t k ts) = let r = min_next_doc max_u32 ts in (r.0, or_t k r.1)
    next_doc (not_t k t) = (0, not_t k t)
    next_doc (no_visit k t) = let r = next_doc t in (r.0, no_visit k r.1)
    next_doc (leaf k l) = let r = next_doc_of_leaf l in (r.0, leaf k r.1)

    -- The loops of andMatchTree.nextDoc and orMatchTree.nextDoc.
    pub max_next_doc : ℕ → Trees I R → ℕ × Trees I R
    max_next_doc max nil = (max, nil)
    max_next_doc max (cons t ts) =
        let m = next_doc t in
        let r = max_next_doc (if ltb max m.0 then m.0 else max) ts in (r.0, cons m.1 r.1)

    pub min_next_doc : ℕ → Trees I R → ℕ × Trees I R
    min_next_doc min nil = (min, nil)
    min_next_doc min (cons t ts) =
        let m = next_doc t in
        let r = min_next_doc (if ltb m.0 min then m.0 else min) ts in (r.0, cons m.1 r.1)

-- known := make(map[matchTree]bool)
unfoldable mutual
  pub forget : {I R : Type 0} → Tree I R → Tree I R
  forget (and_t k ts) = and_t none (forget_all ts)
  forget (or_t k ts) = or_t none (forget_all ts)
  forget (not_t k t) = not_t none (forget t)
  forget (no_visit k t) = no_visit none (forget t)
  forget (leaf k l) = leaf none l

  pub forget_all : {I R : Type 0} → Trees I R → Trees I R
  forget_all nil = nil
  forget_all (cons t ts) = cons (forget t) (forget_all ts)
