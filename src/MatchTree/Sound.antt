-- ===== src/MatchTree/Sound.antt =====
-- matchtree.go: what a sure answer of matches means, at every cost and with every map of results.
use zoekt_archived.Prelude.{
  Bool, true, false, not, ◌&&◌, ◌||◌, ◌≡◌, refl, ap, ℕ, arith, if◌then◌else◌, if-intro,
}
use zoekt_archived.MatchTree.{Provider, Tree, Trees, and_t, or_t, not_t, no_visit, leaf, nil, cons}
use zoekt_archived.MatchTree.Eval.{
  Verdict, known_of, eval_match_tree, matches, and_loop, or_loop, and_step, or_step,
}
use zoekt_archived.MatchTree.Meaning.{meaning, all_meaning, any_meaning}
use zoekt_archived.MatchTree.Leaves.{leaf_matches_lem}
use zoekt_archived.MatchTree.Entries.{
  IsRight-eq, IsSound, AllSound, and_s, or_s, not_s, no_visit_s, leaf_s, nil_s, cons_s, IsVerdict,
  IsSound-known, eval_match_tree-IsVerdict,
}

module _ {I R : Type 0} (cp : Provider R) where
  -- What the loops of And and Or promise: `full` is their answer over the remaining children.
  record IsAndVerdict (sure : Bool) (ts : Trees I R) (r : Verdict (Trees I R)) : Type 0 where
    right : r.sure ≡ true → r.matched ≡ all_meaning cp ts
    unsure : r.sure ≡ true → sure ≡ false → r.matched ≡ false
    same : all_meaning cp r.tree ≡ all_meaning cp ts
    sound : AllSound cp r.tree

  record IsOrVerdict (matched sure : Bool) (ts : Trees I R) (r : Verdict (Trees I R)) : Type 0 where
    right : r.sure ≡ true → (sure ≡ true) × (r.matched ≡ (matched || any_meaning cp ts))
    same : any_meaning cp r.tree ≡ any_meaning cp ts
    sound : AllSound cp r.tree

  and_step-IsAndVerdict :
      (sure : Bool) (t : Tree I R) (ts : Trees I R) (r : Verdict (Tree I R))
      (later : Verdict (Trees I R))
      → AllSound cp ts
      → IsVerdict cp (meaning cp t) r
      → IsAndVerdict (sure && r.sure) ts later
      → IsAndVerdict sure (cons t ts) (and_step r ts later)
  unfolding meaning
  and_step-IsAndVerdict sure t ts r later s w a =
      if-intro (IsAndVerdict sure (cons t ts)) (r.sure && not r.matched) _ _
        (λ e.
          let x = w.right in
          let y = w.same in
          record {
            right = λ _. ground arith;
            unsure = λ _ _. refl;
            same = ground arith;
            sound = cons_s w.sound s;
          })
        (λ e.
          let x = w.right in
          let y = w.same in
          let z = a.right in
          let u = a.unsure in
          let q = a.same in
          record {
            right = λ g. ground arith;
            unsure = λ g h. ground arith;
            same = ground arith;
            sound = cons_s w.sound a.sound;
          })

  or_step-IsOrVerdict :
      (matched sure : Bool) (t : Tree I R) (ts : Trees I R) (r : Verdict (Tree I R))
      (later : Verdict (Trees I R))
      → IsVerdict cp (meaning cp t) r
      → IsOrVerdict (if r.sure then matched || r.matched else matched) (sure && r.sure) ts later
      → IsOrVerdict matched sure (cons t ts) (or_step r later)
  unfolding meaning
  or_step-IsOrVerdict matched sure t ts r later w o =
      let x = w.right in
      let y = w.same in
      let z = o.right in
      let u = o.same in
      record { right = λ g. ground arith; same = ground arith; sound = cons_s w.sound o.sound }

  module _ (cost : ℕ) where
    mutual
      unfolding matches meaning

      tree_verdicts :
          (t : Tree I R) → IsSound cp t → IsVerdict cp (meaning cp t) (matches cp cost t)
      tree_verdicts (and_t k ts) (and_s h s) =
          let w = and_loop-IsAndVerdict ts true s in
          record { right = w.right; same = w.same; sound = and_s (IsRight-eq k w.same h) w.sound }
      tree_verdicts (or_t k ts) (or_s h s) =
          let w = or_loop-IsOrVerdict ts false true s in
          record {
            right = λ e. (w.right e).1;
            same = w.same;
            sound = or_s (IsRight-eq k w.same h) w.sound;
          }
      tree_verdicts (not_t k t) (not_s h s) =
          let w =
            eval_match_tree-IsVerdict cp (known_of t) t (matches cp cost t) s (IsSound-known cp s)
              (tree_verdicts t s) in
          record {
            right = λ e. ap not (w.right e);
            same = ap not w.same;
            sound = not_s (IsRight-eq k (ap not w.same) h) w.sound;
          }
      tree_verdicts (no_visit k t) (no_visit_s h s) =
          let w = tree_verdicts t s in
          record {
            right = w.right;
            same = w.same;
            sound = no_visit_s (IsRight-eq k w.same h) w.sound;
          }
      tree_verdicts (leaf k l) (leaf_s h) =
          let w = leaf_matches_lem cp cost l in
          record { right = w.0; same = w.1; sound = leaf_s (IsRight-eq k w.1 h) }

      and_loop-IsAndVerdict :
          (ts : Trees I R) (sure : Bool)
          → AllSound cp ts
          → IsAndVerdict sure ts (and_loop cp cost sure ts)
      and_loop-IsAndVerdict nil sure nil_s = record {
        right = λ _. refl;
        unsure = λ g h. cc;
        same = refl;
        sound = nil_s;
      }
      and_loop-IsAndVerdict (cons t ts) sure (cons_s s ss) =
          let r = eval_match_tree (known_of t) t (matches cp cost t) in
          and_step-IsAndVerdict sure t ts r (and_loop cp cost (sure && r.sure) ts) ss
            (eval_match_tree-IsVerdict cp (known_of t) t (matches cp cost t) s (IsSound-known cp s)
              (tree_verdicts t s))
            (and_loop-IsAndVerdict ts (sure && r.sure) ss)

      or_loop-IsOrVerdict :
          (ts : Trees I R) (matched sure : Bool)
          → AllSound cp ts
          → IsOrVerdict matched sure ts (or_loop cp cost matched sure ts)
      or_loop-IsOrVerdict nil matched sure nil_s = record {
        right = λ e. (e, ground arith);
        same = refl;
        sound = nil_s;
      }
      or_loop-IsOrVerdict (cons t ts) matched sure (cons_s s ss) =
          let r = eval_match_tree (known_of t) t (matches cp cost t) in
          let matched' : Bool = if r.sure then matched || r.matched else matched in
          or_step-IsOrVerdict matched sure t ts r (or_loop cp cost matched' (sure && r.sure) ts)
            (eval_match_tree-IsVerdict cp (known_of t) t (matches cp cost t) s (IsSound-known cp s)
              (tree_verdicts t s))
            (or_loop-IsOrVerdict ts matched' (sure && r.sure) ss)

-- If every entry of the map of results in the tree is right, then at every cost: an answer of matches
-- that is sure is the meaning of the tree, the tree that it leaves has the same meaning, and every
-- entry in that is right too.
pub matches-IsVerdict :
    {I R : Type 0} (cp : Provider R) (cost : ℕ) (t : Tree I R)
    → IsSound cp t
    → IsVerdict cp (meaning cp t) (matches cp cost t)
matches-IsVerdict cp cost t s = tree_verdicts cp cost t s
