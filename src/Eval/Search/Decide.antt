-- ===== src/Eval/Search/Decide.antt =====
-- eval.go: the loop over the cost levels decides every document, by the meaning of its match tree.
use zoekt_archived.Prelude.{
  ℕ, zero, suc, ◌+◌, ◌≡◌, refl, ap, ◌∙◌, Bool, true, false, not, ◌&&◌, ◌==◌, if◌then◌else◌,
  if-intro, arith,
}
use zoekt_archived.MatchTree.{Provider, Tree}
use zoekt_archived.MatchTree.Eval.{matches, cost_regexp}
use zoekt_archived.MatchTree.Meaning.{meaning}
use zoekt_archived.MatchTree.Entries.{IsSound}
use zoekt_archived.MatchTree.Sound.{matches-IsVerdict}
use zoekt_archived.MatchTree.Decided.{matches-sure}
use zoekt_archived.MatchTree.Panics.{panics}
use zoekt_archived.MatchTree.Fits.{Fits, forget-Fits, matches-Fits, panics_lem}
use zoekt_archived.MatchTree.Next.{forget}
use zoekt_archived.MatchTree.Reset.{reset, reset-matches, reset-forget}
use zoekt_archived.MatchTree.Pass.{meaning-forget, forget-IsSound}
use zoekt_archived.Eval.Search.{
  Decision, rejected, accepted, undecided, crashed, cost_loop, decide_doc,
}

-- The decision is the meaning b, and the tree lasts like t.
abbrev pub Decides : {I R : Type 0} → Bool → Tree I R → Decision (Tree I R) → Type 0
Decides b t (rejected t') = (b ≡ false) × (reset t' ≡ reset t)
Decides b t (accepted t') = (b ≡ true) × (reset t' ≡ reset t)
Decides b t undecided = ⊥
Decides b t crashed = ⊥

Decides-eq :
    {I R : Type 0} (b : Bool) (t t' : Tree I R) (o : Decision (Tree I R))
    → reset t' ≡ reset t
    → Decides b t' o
    → Decides b t o
Decides-eq b t t' (rejected u) e h = (h.0, h.1 ∙ e)
Decides-eq b t t' (accepted u) e h = (h.0, h.1 ∙ e)
Decides-eq b t t' undecided e h = h
Decides-eq b t t' crashed e h = h

module _ {I R : Type 0} (cp : Provider R) where
  matches-sure_at : (cost : ℕ) (t : Tree I R) → cost ≡ cost_regexp → (matches cp cost t).sure ≡ true
  matches-sure_at cost t e = ap (λ c. (matches cp c t).sure) e ∙ matches-sure cp t

  -- One round, given the later ones.
  round-Decides :
      (cost : ℕ) (b : Bool) (t : Tree I R) (later : Decision (Tree I R))
      → IsSound cp t
      → meaning cp t ≡ b
      → Fits cp t
      → (((matches cp cost t).sure && not (matches cp cost t).matched) ≡ false → Decides b t later)
      → Decides b t (
          if panics cp cost t
          then crashed
          else if (matches cp cost t).sure && not (matches cp cost t).matched
          then rejected (matches cp cost t).tree
          else if (cost == cost_regexp) && not (matches cp cost t).sure
          then undecided
          else later)
  round-Decides cost b t later s h fits k =
      let r = matches cp cost t in
      let w = matches-IsVerdict cp cost t s in
      let x = w.right in
      let top = matches-sure_at cost t in
      let safe = panics_lem cp cost t fits in
      if-intro (Decides b t) (panics cp cost t) _ _ (λ e. absurd (ground (arith, e, safe)))
        (λ _.
          if-intro (Decides b t) (r.sure && not r.matched) _ _
            (λ e. (ground arith, reset-matches cp cost t))
            (λ go_on.
              if-intro (Decides b t) ((cost == cost_regexp) && not r.sure) _ _ (λ e. ground arith)
                (λ _. k go_on)))

  -- With n + 1 rounds left before the cost passes costMax.
  cost_loop-Decides :
      (n cost : ℕ) (b : Bool) (t : Tree I R)
      → cost + n ≡ cost_regexp
      → IsSound cp t
      → meaning cp t ≡ b
      → Fits cp t
      → Decides b t (cost_loop cp (suc n) cost t)
  unfolding cost_loop
  cost_loop-Decides zero cost b t e s h fits =
      let w = matches-IsVerdict cp cost t s in
      let x = w.right in
      round-Decides cost b t (accepted (matches cp cost t).tree) s h fits (λ go_on.
        (last_round go_on (matches-sure_at cost t (omega arith)), reset-matches cp cost t))
    where
      last_round :
          ((matches cp cost t).sure && not (matches cp cost t).matched) ≡ false
          → (matches cp cost t).sure ≡ true
          → b ≡ true
      last_round go_on sure = let right = (matches-IsVerdict cp cost t s).right sure in ground arith
  cost_loop-Decides (suc n) cost b t e s h fits =
      let r = matches cp cost t in
      let w = matches-IsVerdict cp cost t s in
      round-Decides cost b t (cost_loop cp (suc n) (cost + 1) r.tree) s h fits (λ _.
        Decides-eq b t r.tree (cost_loop cp (suc n) (cost + 1) r.tree) (reset-matches cp cost t) (
          cost_loop-Decides n (cost + 1) b r.tree (omega arith) w.sound (w.same ∙ h)
            (matches-Fits cp cost t fits)))

  -- If the slices of all candidates of the tree prepared for a document lie in the content, the loop over the
  -- costs neither panics there nor ends undecided, so log.Panicf is not reached: it accepts the document exactly
  -- if the tree means true.
  pub decide_doc-Decides : (t : Tree I R) → Fits cp t → Decides (meaning cp t) t (decide_doc cp t)
  unfolding decide_doc
  decide_doc-Decides t fits =
      Decides-eq (meaning cp t) t (forget t) (cost_loop cp 4 0 (forget t)) (reset-forget t) (
        cost_loop-Decides 3 0 (meaning cp t) (forget t) refl (forget-IsSound cp t)
          (meaning-forget cp t) (forget-Fits cp t fits))
