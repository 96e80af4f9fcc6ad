-- ===== src/MatchTree/Fits.antt =====
-- matchtree.go: on candidates that lie in the content, matches does not panic, and keeps them so.
use zoekt_archived.Prelude.{
  ℕ, ◌≡◌, refl, ◌∙◌, Bool, true, false, not, ◌&&◌, ◌||◌, List, [], ◌∷◌, Option, none, some,
  if◌then◌else◌, arith, if-intro, All, ltb,
}
use zoekt_archived.MatchTree.{
  MatchIterator, Candidate, Provider, Leaf, Tree, Trees, doc, brute_force, no_match, branch_query,
  regexp, substr, and_t, or_t, not_t, no_visit, leaf, nil, cons, SubstrMatchTree,
}
use zoekt_archived.MatchTree.Eval.{
  Verdict, is_empty, cost_memory, cost_content, prune, check_candidate, match_content, locate,
  substr_matches, leaf_matches, known_of, set_known, eval_match_tree, matches, and_loop, or_loop,
  and_step,
}
use zoekt_archived.MatchTree.Panics.{
  slice_panics, any_panics, substr_panics, leaf_panics, eval_panics, panics, and_panics, or_panics,
}
use zoekt_archived.MatchTree.Next.{
  prepare_leaf, prepare_substr, prepare, prepare_all, forget, forget_all,
}
use zoekt_archived.MatchTree.Ready.{IsReadyLeaf, IsReady, AllReady, hits}

-- The slices of the candidates lie in the content.
abbrev pub AllInContent : {R : Type 0} → Provider R → List Candidate → Type 0
AllInContent cp ms = All (λ m. slice_panics cp m ≡ false) ms

eval_panics_lem : (k : Option Bool) (b : Bool) → b ≡ false → eval_panics k b ≡ false
unfolding eval_panics
eval_panics_lem (some v) b e = refl
eval_panics_lem none b e = e

neither : (a b c : Bool) → a ≡ false → c ≡ false → (a || (b && c)) ≡ false
neither a b c e h = ground arith

module _ {R : Type 0} (cp : Provider R) where
  -- A checked candidate has the same slice.
  slice_panics_again :
      (m : Candidate) → slice_panics cp (check_candidate cp m).0 ≡ slice_panics cp m
  unfolding slice_panics check_candidate match_content locate
  slice_panics_again m = ground arith

  prune-AllInContent : (ms : List Candidate) → AllInContent cp ms → AllInContent cp (prune cp ms)
  unfolding prune
  prune-AllInContent [] f = tt
  prune-AllInContent (m ∷ ms) (a, f) =
      if-intro (AllInContent cp) (check_candidate cp m).1 _ _
        (λ _. (slice_panics_again m ∙ a, prune-AllInContent ms f)) (λ _. prune-AllInContent ms f)

  any_panics_lem : (ms : List Candidate) → AllInContent cp ms → any_panics cp ms ≡ false
  unfolding any_panics
  any_panics_lem [] f = refl
  any_panics_lem (m ∷ ms) (a, f) = ground (arith, a, any_panics_lem ms f)

module _ {I R : Type 0} (cp : Provider R) where
  abbrev pub LeafFits : Leaf I R → Type 0
  LeafFits (doc t) = Unit
  LeafFits (brute_force t) = Unit
  LeafFits no_match = Unit
  LeafFits (branch_query t) = Unit
  LeafFits (regexp t) = Unit
  LeafFits (substr t) = AllInContent cp t.current

  unfoldable mutual
    pub Fits : Tree I R → Type 0
    Fits (and_t k ts) = AllFit ts
    Fits (or_t k ts) = AllFit ts
    Fits (not_t k t) = Fits t
    Fits (no_visit k t) = Fits t
    Fits (leaf k l) = LeafFits l

    pub AllFit : Trees I R → Type 0
    AllFit nil = Unit
    AllFit (cons t ts) = Fits t × AllFit ts

  mutual
    unfolding Fits forget

    pub forget-Fits : (t : Tree I R) → Fits t → Fits (forget t)
    forget-Fits (and_t k ts) f = forget_all-AllFit ts f
    forget-Fits (or_t k ts) f = forget_all-AllFit ts f
    forget-Fits (not_t k t) f = forget-Fits t f
    forget-Fits (no_visit k t) f = forget-Fits t f
    forget-Fits (leaf k l) f = f

    forget_all-AllFit : (ts : Trees I R) → AllFit ts → AllFit (forget_all ts)
    forget_all-AllFit nil f = tt
    forget_all-AllFit (cons t ts) f = (forget-Fits t f.0, forget_all-AllFit ts f.1)

  set_known-Fits : (k : Option Bool) (t : Tree I R) → Fits t → Fits (set_known k t)
  unfolding Fits
  set_known-Fits k (and_t _ ts) f = f
  set_known-Fits k (or_t _ ts) f = f
  set_known-Fits k (not_t _ t) f = f
  set_known-Fits k (no_visit _ t) f = f
  set_known-Fits k (leaf _ l) f = f

  eval_match_tree-Fits :
      (k : Option Bool) (t : Tree I R) (r : Verdict (Tree I R))
      → Fits t
      → Fits r.tree
      → Fits (eval_match_tree k t r).tree
  unfolding eval_match_tree
  eval_match_tree-Fits (some v) t r f g = f
  eval_match_tree-Fits none t r f g =
      if-intro (λ (w : Verdict (Tree I R)). Fits w.tree) r.sure _ r
        (λ _. set_known-Fits (some r.matched) r.tree g) (λ _. g)

module _ {I R : Type 0} (cp : Provider R) (cost : ℕ) where
  leaf_matches-LeafFits : (l : Leaf I R) → LeafFits cp l → LeafFits cp (leaf_matches cp cost l).tree
  unfolding leaf_matches substr_matches
  leaf_matches-LeafFits (doc t) f = tt
  leaf_matches-LeafFits (brute_force t) f = tt
  leaf_matches-LeafFits no_match f = tt
  leaf_matches-LeafFits (branch_query t) f = tt
  leaf_matches-LeafFits (regexp t) f = tt
  leaf_matches-LeafFits (substr t) f =
      let P = λ (v : Verdict (SubstrMatchTree I)). AllInContent cp v.tree.current in
      if-intro P (is_empty t.current) _ _ (λ _. f)
        (λ _.
          if-intro P (t.file_name && ltb cost cost_memory) _ _ (λ _. f)
            (λ _.
              if-intro P (not t.file_name && ltb cost cost_content) _ _ (λ _. f)
                (λ _. prune-AllInContent cp t.current f)))

  and_step-AllFit :
      (ts : Trees I R) (r : Verdict (Tree I R)) (later : Verdict (Trees I R))
      → Fits cp r.tree
      → AllFit cp ts
      → AllFit cp later.tree
      → AllFit cp (and_step r ts later).tree
  unfolding Fits
  and_step-AllFit ts r later f g h =
      if-intro (λ (w : Verdict (Trees I R)). AllFit cp w.tree) (r.sure && not r.matched) _ _
        (λ _. (f, g)) (λ _. (f, h))

  mutual
    unfolding Fits matches

    pub matches-Fits : (t : Tree I R) → Fits cp t → Fits cp (matches cp cost t).tree
    matches-Fits (and_t k ts) f = and_loop-AllFit ts true f
    matches-Fits (or_t k ts) f = or_loop-AllFit ts false true f
    matches-Fits (not_t k t) f =
        eval_match_tree-Fits cp (known_of t) t (matches cp cost t) f (matches-Fits t f)
    matches-Fits (no_visit k t) f = matches-Fits t f
    matches-Fits (leaf k l) f = leaf_matches-LeafFits l f

    and_loop-AllFit :
        (ts : Trees I R) (sure : Bool) → AllFit cp ts → AllFit cp (and_loop cp cost sure ts).tree
    and_loop-AllFit nil sure f = tt
    and_loop-AllFit (cons t ts) sure f =
        let r = eval_match_tree (known_of t) t (matches cp cost t) in
        and_step-AllFit ts r (and_loop cp cost (sure && r.sure) ts)
          (eval_match_tree-Fits cp (known_of t) t (matches cp cost t) f.0 (matches-Fits t f.0)) f.1
          (and_loop-AllFit ts (sure && r.sure) f.1)

    or_loop-AllFit :
        (ts : Trees I R) (matched sure : Bool)
        → AllFit cp ts
        → AllFit cp (or_loop cp cost matched sure ts).tree
    or_loop-AllFit nil matched sure f = tt
    or_loop-AllFit (cons t ts) matched sure f =
        let r = eval_match_tree (known_of t) t (matches cp cost t) in
        (
          eval_match_tree-Fits cp (known_of t) t (matches cp cost t) f.0 (matches-Fits t f.0),
          or_loop-AllFit ts (if r.sure then matched || r.matched else matched) (sure && r.sure) f.1,
        )

  leaf_panics_lem : (l : Leaf I R) → LeafFits cp l → leaf_panics cp cost l ≡ false
  unfolding leaf_panics substr_panics
  leaf_panics_lem (doc t) f = refl
  leaf_panics_lem (brute_force t) f = refl
  leaf_panics_lem no_match f = refl
  leaf_panics_lem (branch_query t) f = refl
  leaf_panics_lem (regexp t) f = refl
  leaf_panics_lem (substr t) f = ground (arith, any_panics_lem cp t.current f)

  mutual
    unfolding Fits panics

    pub panics_lem : (t : Tree I R) → Fits cp t → panics cp cost t ≡ false
    panics_lem (and_t k ts) f = (all_panics_lem ts f).0
    panics_lem (or_t k ts) f = (all_panics_lem ts f).1
    panics_lem (not_t k t) f = eval_panics_lem (known_of t) (panics cp cost t) (panics_lem t f)
    panics_lem (no_visit k t) f = panics_lem t f
    panics_lem (leaf k l) f = leaf_panics_lem l f

    all_panics_lem :
        (ts : Trees I R)
        → AllFit cp ts
        → (and_panics cp cost ts ≡ false) × (or_panics cp cost ts ≡ false)
    all_panics_lem nil f = (refl, refl)
    all_panics_lem (cons t ts) f =
        let r = eval_match_tree (known_of t) t (matches cp cost t) in
        let here = eval_panics_lem (known_of t) (panics cp cost t) (panics_lem t f.0) in
        let (a, o) = all_panics_lem ts f.1 in
        (
          neither (eval_panics (known_of t) (panics cp cost t)) (not (r.sure && not r.matched))
              (and_panics cp cost ts) here a,
          ground (arith, here, o),
        )

-- Where a ready iterator reports candidates in the content only, a ready tree fits once it is prepared.
module _ {I R : Type 0} (it : MatchIterator I) (Ready : I → ℕ → Type 0) (cp : Provider R) (d : ℕ)
    (inside : (s : I) → Ready s d → AllInContent cp (hits it s d)) where
  prepare_leaf-LeafFits : (l : Leaf I R) → IsReadyLeaf Ready d l → LeafFits cp (prepare_leaf it d l)
  unfolding prepare_leaf prepare_substr
  prepare_leaf-LeafFits (doc t) r = tt
  prepare_leaf-LeafFits (brute_force t) r = tt
  prepare_leaf-LeafFits no_match r = tt
  prepare_leaf-LeafFits (branch_query t) r = tt
  prepare_leaf-LeafFits (regexp t) r = tt
  prepare_leaf-LeafFits (substr t) r = inside t.match_iterator r

  mutual
    unfolding Fits prepare IsReady

    pub prepare-Fits : (t : Tree I R) → IsReady Ready d t → Fits cp (prepare it d t)
    prepare-Fits (and_t k ts) r = prepare_all-AllFit ts r
    prepare-Fits (or_t k ts) r = prepare_all-AllFit ts r
    prepare-Fits (not_t k t) r = prepare-Fits t r
    prepare-Fits (no_visit k t) r = prepare-Fits t r
    prepare-Fits (leaf k l) r = prepare_leaf-LeafFits l r

    prepare_all-AllFit : (ts : Trees I R) → AllReady Ready d ts → AllFit cp (prepare_all it d ts)
    prepare_all-AllFit nil r = tt
    prepare_all-AllFit (cons t ts) r = (prepare-Fits t r.0, prepare_all-AllFit ts r.1)
