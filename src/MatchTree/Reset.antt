-- ===== src/MatchTree/Reset.antt =====
-- matchtree.go: the part of a tree that lasts from one document to the next, which matches leaves alone.
use zoekt_archived.Prelude.{
  ℕ, ◌≡◌, refl, ap, ◌∙◌, Bool, true, false, not, ◌&&◌, ◌||◌, [], Option, none, some, if◌then◌else◌,
  arith, if-intro,
}
use zoekt_archived.MatchTree.{
  MatchIterator, Provider, Leaf, Tree, Trees, doc, brute_force, no_match, branch_query, regexp,
  substr, and_t, or_t, not_t, no_visit, leaf, nil, cons,
}
use zoekt_archived.MatchTree.Eval.{
  Verdict, find_candidates, substr_matches, regexp_matches, leaf_matches, known_of, set_known,
  eval_match_tree, matches, and_loop, or_loop, and_step,
}
use zoekt_archived.MatchTree.Meaning.{leaf_meaning, meaning, all_meaning, any_meaning}
use zoekt_archived.MatchTree.Next.{prepare_leaf, prepare, prepare_all, forget, forget_all}
use mathlib.Core.Path.{ap₂}

-- The part of a tree that lasts from one document to the next.
unfoldable pub reset_leaf : {I R : Type 0} → Leaf I R → Leaf I R
reset_leaf (regexp t) = regexp (record t { found = [] })
reset_leaf (substr t) = substr (record t { current = [] })
reset_leaf (doc t) = doc t
reset_leaf (brute_force t) = brute_force t
reset_leaf no_match = no_match
reset_leaf (branch_query t) = branch_query t

unfoldable mutual
  pub reset : {I R : Type 0} → Tree I R → Tree I R
  reset (and_t k ts) = and_t none (reset_all ts)
  reset (or_t k ts) = or_t none (reset_all ts)
  reset (not_t k t) = not_t none (reset t)
  reset (no_visit k t) = no_visit none (reset t)
  reset (leaf k l) = leaf none (reset_leaf l)

  pub reset_all : {I R : Type 0} → Trees I R → Trees I R
  reset_all nil = nil
  reset_all (cons t ts) = cons (reset t) (reset_all ts)

module _ {I R : Type 0} where
  mutual
    unfolding reset forget

    pub reset-forget : (t : Tree I R) → reset (forget t) ≡ reset t
    reset-forget (and_t k ts) = ap (and_t none) (reset_all-forget_all ts)
    reset-forget (or_t k ts) = ap (or_t none) (reset_all-forget_all ts)
    reset-forget (not_t k t) = ap (not_t none) (reset-forget t)
    reset-forget (no_visit k t) = ap (no_visit none) (reset-forget t)
    reset-forget (leaf k l) = refl

    reset_all-forget_all : (ts : Trees I R) → reset_all (forget_all ts) ≡ reset_all ts
    reset_all-forget_all nil = refl
    reset_all-forget_all (cons t ts) = ap₂ cons (reset-forget t) (reset_all-forget_all ts)

  reset-set_known : (k : Option Bool) (t : Tree I R) → reset (set_known k t) ≡ reset t
  unfolding reset
  reset-set_known k (and_t _ ts) = refl
  reset-set_known k (or_t _ ts) = refl
  reset-set_known k (not_t _ t) = refl
  reset-set_known k (no_visit _ t) = refl
  reset-set_known k (leaf _ l) = refl

  reset-eval_match_tree :
      (k : Option Bool) (t : Tree I R) (r : Verdict (Tree I R))
      → reset r.tree ≡ reset t
      → reset (eval_match_tree k t r).tree ≡ reset t
  unfolding eval_match_tree
  reset-eval_match_tree (some v) t r h = refl
  reset-eval_match_tree none t r h =
      if-intro (λ (w : Verdict (Tree I R)). reset w.tree ≡ reset t) r.sure _ r
        (λ _. reset-set_known (some r.matched) r.tree ∙ h) (λ _. h)

-- matches changes nothing that lasts.
module _ {I R : Type 0} (cp : Provider R) (cost : ℕ) where
  reset-leaf_matches : (l : Leaf I R) → reset_leaf (leaf_matches cp cost l).tree ≡ reset_leaf l
  unfolding reset_leaf leaf_matches substr_matches regexp_matches
  reset-leaf_matches (doc t) = refl
  reset-leaf_matches (brute_force t) = refl
  reset-leaf_matches no_match = refl
  reset-leaf_matches (branch_query t) = refl
  reset-leaf_matches (regexp t) = ground arith
  reset-leaf_matches (substr t) = ground arith

  reset_all-and_step :
      (t : Tree I R) (ts : Trees I R) (r : Verdict (Tree I R)) (later : Verdict (Trees I R))
      → reset r.tree ≡ reset t
      → reset_all later.tree ≡ reset_all ts
      → reset_all (and_step r ts later).tree ≡ reset_all (cons t ts)
  unfolding reset
  reset_all-and_step t ts r later h k = ground arith

  mutual
    unfolding reset matches

    pub reset-matches : (t : Tree I R) → reset (matches cp cost t).tree ≡ reset t
    reset-matches (and_t k ts) = ap (and_t none) (reset_all-and_loop ts true)
    reset-matches (or_t k ts) = ap (or_t none) (reset_all-or_loop ts false true)
    reset-matches (not_t k t) =
        ap (not_t none) (reset-eval_match_tree (known_of t) t (matches cp cost t) (reset-matches t))
    reset-matches (no_visit k t) = ap (no_visit none) (reset-matches t)
    reset-matches (leaf k l) = ap (leaf none) (reset-leaf_matches l)

    reset_all-and_loop :
        (ts : Trees I R) (sure : Bool) → reset_all (and_loop cp cost sure ts).tree ≡ reset_all ts
    reset_all-and_loop nil sure = refl
    reset_all-and_loop (cons t ts) sure =
        let r = eval_match_tree (known_of t) t (matches cp cost t) in
        reset_all-and_step t ts r (and_loop cp cost (sure && r.sure) ts)
          (reset-eval_match_tree (known_of t) t (matches cp cost t) (reset-matches t))
          (reset_all-and_loop ts (sure && r.sure))

    reset_all-or_loop :
        (ts : Trees I R) (matched sure : Bool)
        → reset_all (or_loop cp cost matched sure ts).tree ≡ reset_all ts
    reset_all-or_loop nil matched sure = refl
    reset_all-or_loop (cons t ts) matched sure =
        let r = eval_match_tree (known_of t) t (matches cp cost t) in
        ap₂ cons (reset-eval_match_tree (known_of t) t (matches cp cost t) (reset-matches t))
          (reset_all-or_loop ts (if r.sure then matched || r.matched else matched) (sure && r.sure))

-- The meaning at a later document, and readiness for it, depend on what lasts only.
module _ {I R : Type 0} (it : MatchIterator I) (cp : Provider R) (d : ℕ) where
  leaf_meaning-reset :
      (l : Leaf I R)
      → leaf_meaning cp (prepare_leaf it d (reset_leaf l)) ≡ leaf_meaning cp (prepare_leaf it d l)
  unfolding reset_leaf prepare_leaf leaf_meaning find_candidates
  leaf_meaning-reset (doc t) = refl
  leaf_meaning-reset (brute_force t) = refl
  leaf_meaning-reset no_match = refl
  leaf_meaning-reset (branch_query t) = refl
  leaf_meaning-reset (regexp t) = refl
  leaf_meaning-reset (substr t) = refl

  mutual
    unfolding reset prepare meaning

    pub meaning-reset :
        (t : Tree I R) → meaning cp (prepare it d (reset t)) ≡ meaning cp (prepare it d t)
    meaning-reset (and_t k ts) = (list_meaning-reset ts).0
    meaning-reset (or_t k ts) = (list_meaning-reset ts).1
    meaning-reset (not_t k t) = ap not (meaning-reset t)
    meaning-reset (no_visit k t) = meaning-reset t
    meaning-reset (leaf k l) = leaf_meaning-reset l

    list_meaning-reset :
        (ts : Trees I R)
        → (all_meaning cp (prepare_all it d (reset_all ts)) ≡ all_meaning cp (prepare_all it d ts))
          × (any_meaning cp (prepare_all it d (reset_all ts))
              ≡ any_meaning cp (prepare_all it d ts))
    list_meaning-reset nil = (refl, refl)
    list_meaning-reset (cons t ts) =
        let (a, b) = list_meaning-reset ts in
        (ap₂ ◌&&◌ (meaning-reset t) a, ap₂ ◌||◌ (meaning-reset t) b)
