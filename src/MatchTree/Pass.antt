-- ===== src/MatchTree/Pass.antt =====
-- matchtree.go: a document that was processed leaves the tree as good as new for the later ones.
use zoekt_archived.Prelude.{ℕ, ◌<◌, ◌≡◌, refl, sym, ap, ◌∙◌, not, ◌&&◌, ◌||◌, List, [], ◌∷◌, arith}
use zoekt_archived.MatchTree.{
  MatchIterator, Provider, DocMatchTree, Leaf, Tree, Trees, doc, brute_force, no_match,
  branch_query, regexp, substr, and_t, or_t, not_t, no_visit, leaf, nil, cons,
}
use zoekt_archived.MatchTree.Eval.{is_empty, find_candidates, branch_matches}
use zoekt_archived.MatchTree.Meaning.{any_matches, leaf_meaning, meaning, all_meaning, any_meaning}
use zoekt_archived.MatchTree.Entries.{
  IsSound, AllSound, and_s, or_s, not_s, no_visit_s, leaf_s, nil_s, cons_s,
}
use zoekt_archived.MatchTree.Next.{
  skip_before, split_at_doc, prepare_doc, prepare_leaf, prepare, prepare_all, forget, forget_all,
}
use zoekt_archived.MatchTree.Reset.{reset_leaf, reset, reset_all, meaning-reset}
use mathlib.Core.Path.{ap₂, subst}
use zoekt_archived.MatchTree.Ready.{IsMatchIterator, IsReadyLeaf, IsReady, AllReady}

skip_before-split_at_doc :
    (c d : ℕ) (xs : List ℕ) → c < d → skip_before d (split_at_doc c xs).1 ≡ skip_before d xs
unfolding skip_before split_at_doc
skip_before-split_at_doc c d [] h = refl
skip_before-split_at_doc c d (x ∷ xs) h = ground (arith, skip_before-split_at_doc c d xs h)

skip_before_twice :
    (c d : ℕ) (xs : List ℕ)
    → c < d
    → skip_before d (split_at_doc c (skip_before c xs)).1 ≡ skip_before d xs
unfolding skip_before split_at_doc
skip_before_twice c d [] h = refl
skip_before_twice c d (x ∷ xs) h =
    ground (arith, skip_before_twice c d xs h, skip_before-split_at_doc c d xs h)

prepare_doc_twice :
    (c d : ℕ) (t : DocMatchTree) → c < d → prepare_doc d (prepare_doc c t) ≡ prepare_doc d t
unfolding prepare_doc
prepare_doc_twice c d t h =
    ap (λ xs. record { docs = (split_at_doc d xs).1; current = (split_at_doc d xs).0 })
      (skip_before_twice c d t.docs h)

module _ {I R : Type 0} (it : MatchIterator I) (Ready : I → ℕ → Type 0)
    (laws : IsMatchIterator it Ready) (cp : Provider R) (c d : ℕ) (later : c < d) where
  prepare_leaf_twice :
      (l : Leaf I R)
      → IsReadyLeaf Ready c l
      → IsReadyLeaf Ready d (prepare_leaf it c l)
        × (leaf_meaning cp (prepare_leaf it d (prepare_leaf it c l))
            ≡ leaf_meaning cp (prepare_leaf it d l))
  unfolding leaf_meaning prepare_leaf find_candidates branch_matches
  prepare_leaf_twice (doc t) r =
      (tt, ap (λ (s : DocMatchTree). not (is_empty s.current)) (prepare_doc_twice c d t later))
  prepare_leaf_twice (brute_force t) r = (λ _. later, refl)
  prepare_leaf_twice no_match r = (tt, refl)
  prepare_leaf_twice (branch_query t) r = (λ _. later, refl)
  prepare_leaf_twice (regexp t) r = (λ _. later, refl)
  prepare_leaf_twice (substr t) r = (
    laws.pass_ready t.match_iterator c d r later,
    ap (any_matches cp) (laws.pass_same t.match_iterator c d r later),
  )

  mutual
    unfolding prepare meaning IsReady

    pub prepare_twice :
        (t : Tree I R)
        → IsReady Ready c t
        → IsReady Ready d (prepare it c t)
          × (meaning cp (prepare it d (prepare it c t)) ≡ meaning cp (prepare it d t))
    prepare_twice (and_t k ts) r = let (a, b, e) = prepare_all_twice ts r in (a, b)
    prepare_twice (or_t k ts) r = let (a, b, e) = prepare_all_twice ts r in (a, e)
    prepare_twice (not_t k t) r = let (a, b) = prepare_twice t r in (a, ap not b)
    prepare_twice (no_visit k t) r = prepare_twice t r
    prepare_twice (leaf k l) r = prepare_leaf_twice l r

    prepare_all_twice :
        (ts : Trees I R)
        → AllReady Ready c ts
        → AllReady Ready d (prepare_all it c ts)
          × (all_meaning cp (prepare_all it d (prepare_all it c ts))
              ≡ all_meaning cp (prepare_all it d ts))
          × (any_meaning cp (prepare_all it d (prepare_all it c ts))
              ≡ any_meaning cp (prepare_all it d ts))
    prepare_all_twice nil r = (tt, refl, refl)
    prepare_all_twice (cons t ts) r =
        let (a, b) = prepare_twice t r.0 in
        let (a', b', e') = prepare_all_twice ts r.1 in ((a, a'), ap₂ ◌&&◌ b b', ap₂ ◌||◌ b e')

module _ {I R : Type 0} (Ready : I → ℕ → Type 0) (d : ℕ) where
  IsReadyLeaf-reset :
      (l : Leaf I R)
      → (IsReadyLeaf Ready d l → IsReadyLeaf Ready d (reset_leaf l))
        × (IsReadyLeaf Ready d (reset_leaf l) → IsReadyLeaf Ready d l)
  unfolding reset_leaf
  IsReadyLeaf-reset (doc t) = (λ h. h, λ h. h)
  IsReadyLeaf-reset (brute_force t) = (λ h. h, λ h. h)
  IsReadyLeaf-reset no_match = (λ h. h, λ h. h)
  IsReadyLeaf-reset (branch_query t) = (λ h. h, λ h. h)
  IsReadyLeaf-reset (regexp t) = (λ h. h, λ h. h)
  IsReadyLeaf-reset (substr t) = (λ h. h, λ h. h)

  mutual
    unfolding reset IsReady

    IsReady-reset :
        (t : Tree I R)
        → (IsReady Ready d t → IsReady Ready d (reset t))
          × (IsReady Ready d (reset t) → IsReady Ready d t)
    IsReady-reset (and_t k ts) = AllReady-reset ts
    IsReady-reset (or_t k ts) = AllReady-reset ts
    IsReady-reset (not_t k t) = IsReady-reset t
    IsReady-reset (no_visit k t) = IsReady-reset t
    IsReady-reset (leaf k l) = IsReadyLeaf-reset l

    AllReady-reset :
        (ts : Trees I R)
        → (AllReady Ready d ts → AllReady Ready d (reset_all ts))
          × (AllReady Ready d (reset_all ts) → AllReady Ready d ts)
    AllReady-reset nil = (λ h. h, λ h. h)
    AllReady-reset (cons t ts) =
        let (a, b) = IsReady-reset t in
        let (a', b') = AllReady-reset ts in (λ h. (a h.0, a' h.1), λ h. (b h.0, b' h.1))

module _ {I R : Type 0} (it : MatchIterator I) (Ready : I → ℕ → Type 0)
    (laws : IsMatchIterator it Ready) (cp : Provider R) where
  -- Let the tree t be ready for c, let d be above c, and let t' differ from t prepared for c only in
  -- what matches changes and in its map of results. Then t' is ready for d, and means there what t
  -- means there.
  pub pass_lem :
      (c d : ℕ) (t t' : Tree I R)
      → c < d
      → IsReady Ready c t
      → reset t' ≡ reset (prepare it c t)
      → IsReady Ready d t' × (meaning cp (prepare it d t') ≡ meaning cp (prepare it d t))
  pass_lem c d t t' later r e =
      let (ready, same) = prepare_twice it Ready laws cp c d later t r in
      (
        (IsReady-reset Ready d t').1
            (subst (IsReady Ready d) (sym e) ((IsReady-reset Ready d (prepare it c t)).0 ready)),
        sym (meaning-reset it cp d t')
            ∙ ap (λ s. meaning cp (prepare it d s)) e
            ∙ meaning-reset it cp d (prepare it c t)
            ∙ same,
      )

-- A fresh map of results.
module _ {I R : Type 0} (cp : Provider R) where
  mutual
    unfolding forget meaning

    pub meaning-forget : (t : Tree I R) → meaning cp (forget t) ≡ meaning cp t
    meaning-forget (and_t k ts) = (list_meaning-forget ts).0
    meaning-forget (or_t k ts) = (list_meaning-forget ts).1
    meaning-forget (not_t k t) = ap not (meaning-forget t)
    meaning-forget (no_visit k t) = meaning-forget t
    meaning-forget (leaf k l) = refl

    list_meaning-forget :
        (ts : Trees I R)
        → (all_meaning cp (forget_all ts) ≡ all_meaning cp ts)
          × (any_meaning cp (forget_all ts) ≡ any_meaning cp ts)
    list_meaning-forget nil = (refl, refl)
    list_meaning-forget (cons t ts) =
        let (a, b) = list_meaning-forget ts in
        (ap₂ ◌&&◌ (meaning-forget t) a, ap₂ ◌||◌ (meaning-forget t) b)

  mutual
    unfolding forget

    pub forget-IsSound : (t : Tree I R) → IsSound cp (forget t)
    forget-IsSound (and_t k ts) = and_s tt (forget_all-AllSound ts)
    forget-IsSound (or_t k ts) = or_s tt (forget_all-AllSound ts)
    forget-IsSound (not_t k t) = not_s tt (forget-IsSound t)
    forget-IsSound (no_visit k t) = no_visit_s tt (forget-IsSound t)
    forget-IsSound (leaf k l) = leaf_s tt

    forget_all-AllSound : (ts : Trees I R) → AllSound cp (forget_all ts)
    forget_all-AllSound nil = nil_s
    forget_all-AllSound (cons t ts) = cons_s (forget-IsSound t) (forget_all-AllSound ts)
