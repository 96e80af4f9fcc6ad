-- ===== src/MatchTree/Skip.antt =====
-- matchtree.go: nextDoc passes over no document that matches.
use zoekt_archived.Prelude.{
  ℕ, zero, suc, ◌+◌, ◌-◌, ◌%◌, ◌^◌, ◌≤◌, ◌<◌, ◌≡◌, refl, sym, ap, ◌∙◌, ◌⊎◌, inl, inr, Bool, false,
  ◌&&◌, ◌||◌, List, [], ◌∷◌, bit_and, get_or, drop, ltb, if◌then◌else◌, arith, Bool-cases,
}
use zoekt_archived.Prelude.BitAnd.{bit_and_comm, bit_and-zero}
use mathlib.Core.Path.{ap₂}
use native.Mathlib.Decide.{ℕ_discrete}
use zoekt_archived.MatchTree.{
  MatchIterator, Provider, BranchQueryMatchTree, DocMatchTree, Leaf, Tree, Trees, doc, brute_force,
  no_match, branch_query, regexp, substr, and_t, or_t, not_t, no_visit, leaf, nil, cons, max_u32,
}
use zoekt_archived.MatchTree.Eval.{is_empty, branch_matches}
use zoekt_archived.MatchTree.Meaning.{any_matches, leaf_meaning, meaning, all_meaning, any_meaning}
use zoekt_archived.MatchTree.Next.{
  skip_before, split_at_doc, prepare_doc, next_doc_of_docs, scan_masks, next_doc_of_branch_query,
  prepare_branch_query, prepare_leaf, next_doc_of_leaf, prepare, prepare_all, next_doc,
  max_next_doc, min_next_doc, prepare_substr,
}
use zoekt_archived.MatchTree.Ready.{IsMatchIterator, IsBehind, IsReadyLeaf, IsReady, AllReady}

prepare_doc-empty :
    (d : ℕ) (t : DocMatchTree) → d < next_doc_of_docs t → (prepare_doc d t).current ≡ []
unfolding prepare_doc next_doc_of_docs skip_before split_at_doc
prepare_doc-empty d t h = ground arith

get_or-drop : (n i : ℕ) (ms : List ℕ) → get_or (drop n ms) i 0 ≡ get_or ms (n + i) 0
get_or-drop zero i ms = let e : i ≡ 0 + i = omega arith in ap (λ k. get_or ms k 0) e
get_or-drop (suc n) i [] = refl
get_or-drop (suc n) i (x ∷ xs) =
    let e : suc (n + i) ≡ suc n + i = omega arith in
    get_or-drop n i xs ∙ ap (λ k. get_or (x ∷ xs) k 0) e

scan_masks-skips :
    (mask i d : ℕ) (ms : List ℕ)
    → i ≤ d
    → d < scan_masks mask i ms
    → bit_and mask (get_or ms (d - i) 0) ≡ 0
unfolding scan_masks
scan_masks-skips mask i d [] h k = bit_and-zero mask
scan_masks-skips mask i d (m ∷ ms) h k = elim (ℕ_discrete d i) [
  | yes e ↦
      let z : d - i ≡ 0 = omega arith in
      ap (λ j. bit_and mask (get_or (m ∷ ms) j 0)) z ∙ ground arith
  | no n ↦
      ap (λ j. bit_and mask (get_or (m ∷ ms) j 0)) (at_tail (omega arith))
      ∙ scan_masks-skips mask (i + 1) d ms (omega arith) (ground arith)
]
  where
    at_tail : i + 1 ≤ d → d - i ≡ suc (d - (i + 1))
    at_tail le = omega arith

next_doc_of_branch_query-skips :
    (d : ℕ) (t : BranchQueryMatchTree)
    → d < max_u32
    → IsBehind d t.first_done t.doc_id
    → d < next_doc_of_branch_query t
    → branch_matches (prepare_branch_query d t) ≡ false
unfolding next_doc_of_branch_query branch_matches prepare_branch_query
next_doc_of_branch_query-skips d t bound b h =
    let start : ℕ = if t.first_done then (t.doc_id + 1) % 2 ^ 32 else 0 in
    let behind : start ≤ d = ground arith in
    let clear : bit_and t.mask (get_or (drop start t.file_masks) (d - start) 0) ≡ 0 =
      scan_masks-skips t.mask start d (drop start t.file_masks) behind h in
    let there : get_or (drop start t.file_masks) (d - start) 0 ≡ get_or t.file_masks d 0 =
      get_or-drop start (d - start) t.file_masks
      ∙ ap (λ j. get_or t.file_masks j 0) (omega arith) in
    let flipped : bit_and (get_or t.file_masks d 0) t.mask ≡ 0 =
      bit_and_comm (get_or t.file_masks d 0) t.mask ∙ ap (bit_and t.mask) (sym there) ∙ clear in
    ground arith

-- One child of the loops over the children, with what the later children give.
max_step :
    (d max m rest : ℕ) (a b : Bool)
    → (d < m → a ≡ false)
    → (d < rest → (d < (if ltb max m then m else max)) ⊎ (b ≡ false))
    → d < rest
    → (d < max) ⊎ ((a && b) ≡ false)
max_step d max m rest a b ha hb h = elim (hb h) [
  | inl lt ↦ elim (Bool-cases (ltb max m)) [
    | inl e ↦ inr (ground (arith, ha))
    | inr e ↦ inl (ground arith)
  ]
  | inr e ↦ inr (ground arith)
]

min_step :
    (d min m rest : ℕ) (a b : Bool)
    → (d < m → a ≡ false)
    → (d < rest → (d < (if ltb m min then m else min)) × (b ≡ false))
    → d < rest
    → (d < min) × ((a || b) ≡ false)
min_step d min m rest a b ha hb h = ground arith

below_zero : {d : ℕ} {b : Bool} → (d < 0) ⊎ (b ≡ false) → b ≡ false
below_zero (inl h) = absurd (omega arith)
below_zero (inr e) = e

module _ {I R : Type 0} (it : MatchIterator I) (Ready : I → ℕ → Type 0)
    (laws : IsMatchIterator it Ready) (cp : Provider R) (d : ℕ) (bound : d < max_u32) where
  next_doc_of_leaf_lem :
      (l : Leaf I R)
      → IsReadyLeaf Ready d l
      → IsReadyLeaf Ready d (next_doc_of_leaf it l).1
        × (leaf_meaning cp (prepare_leaf it d (next_doc_of_leaf it l).1)
            ≡ leaf_meaning cp (prepare_leaf it d l))
        × (d < (next_doc_of_leaf it l).0 → leaf_meaning cp (prepare_leaf it d l) ≡ false)
  unfolding next_doc_of_leaf leaf_meaning prepare_leaf prepare_substr is_empty
  next_doc_of_leaf_lem (doc t) r = (tt, refl, λ h. rw (prepare_doc-empty d t h))
  next_doc_of_leaf_lem (brute_force t) r = (r, refl, λ h. ground arith)
  next_doc_of_leaf_lem no_match r = (tt, refl, λ h. refl)
  next_doc_of_leaf_lem (branch_query t) r = (r, refl, next_doc_of_branch_query-skips d t bound r)
  next_doc_of_leaf_lem (regexp t) r = (r, refl, λ h. ground arith)
  next_doc_of_leaf_lem (substr t) r = (
    laws.next_ready t.match_iterator d r,
    ap (any_matches cp) (laws.next_same t.match_iterator d r),
    λ h. ap (any_matches cp) (laws.next_skips t.match_iterator d r h),
  )

  mutual
    unfolding next_doc prepare meaning IsReady

    next_doc_laws :
        (t : Tree I R)
        → IsReady Ready d t
        → IsReady Ready d (next_doc it t).1
          × (meaning cp (prepare it d (next_doc it t).1) ≡ meaning cp (prepare it d t))
          × (d < (next_doc it t).0 → meaning cp (prepare it d t) ≡ false)
    next_doc_laws (and_t k ts) r =
        let (keeps, same, skips) = max_next_doc_laws ts 0 r in
        (keeps, same, λ h. below_zero (skips h))
    next_doc_laws (or_t k ts) r =
        let (keeps, same, skips) = min_next_doc_laws ts max_u32 r in (keeps, same, λ h. (skips h).1)
    next_doc_laws (not_t k t) r = (r, refl, λ h. absurd (omega arith))
    next_doc_laws (no_visit k t) r = next_doc_laws t r
    next_doc_laws (leaf k l) r = next_doc_of_leaf_lem l r

    max_next_doc_laws :
        (ts : Trees I R) (max : ℕ)
        → AllReady Ready d ts
        → AllReady Ready d (max_next_doc it max ts).1
          × (all_meaning cp (prepare_all it d (max_next_doc it max ts).1)
              ≡ all_meaning cp (prepare_all it d ts))
          × (d < (max_next_doc it max ts).0
              → (d < max) ⊎ (all_meaning cp (prepare_all it d ts) ≡ false))
    max_next_doc_laws nil max r = (r, refl, inl)
    max_next_doc_laws (cons t ts) max r =
        let m = (next_doc it t).0 in
        let (keeps, same, skips) = next_doc_laws t r.0 in
        let (keeps', same', skips') = max_next_doc_laws ts (if ltb max m then m else max) r.1 in
        (
          (keeps, keeps'),
          ap₂ ◌&&◌ same same',
          max_step d max m (max_next_doc it (if ltb max m then m else max) ts).0
              (meaning cp (prepare it d t)) (all_meaning cp (prepare_all it d ts)) skips skips',
        )

    min_next_doc_laws :
        (ts : Trees I R) (min : ℕ)
        → AllReady Ready d ts
        → AllReady Ready d (min_next_doc it min ts).1
          × (any_meaning cp (prepare_all it d (min_next_doc it min ts).1)
              ≡ any_meaning cp (prepare_all it d ts))
          × (d < (min_next_doc it min ts).0
              → (d < min) × (any_meaning cp (prepare_all it d ts) ≡ false))
    min_next_doc_laws nil min r = (r, refl, λ h. (h, refl))
    min_next_doc_laws (cons t ts) min r =
        let m = (next_doc it t).0 in
        let (keeps, same, skips) = next_doc_laws t r.0 in
        let (keeps', same', skips') = min_next_doc_laws ts (if ltb m min then m else min) r.1 in
        (
          (keeps, keeps'),
          ap₂ ◌||◌ same same',
          min_step d min m (min_next_doc it (if ltb m min then m else min) ts).0
              (meaning cp (prepare it d t)) (any_meaning cp (prepare_all it d ts)) skips skips',
        )

  -- Let d be a document below 2 ^ 32 - 1 that the tree is ready for. After nextDoc the tree is ready
  -- for d and means there what it meant before, and if nextDoc is above d, that is false.
  pub next_doc_lem :
      (t : Tree I R)
      → IsReady Ready d t
      → IsReady Ready d (next_doc it t).1
        × (meaning cp (prepare it d (next_doc it t).1) ≡ meaning cp (prepare it d t))
        × (d < (next_doc it t).0 → meaning cp (prepare it d t) ≡ false)
  next_doc_lem t r = next_doc_laws t r
