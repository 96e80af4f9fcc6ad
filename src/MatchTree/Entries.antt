-- ===== src/MatchTree/Entries.antt =====
-- matchtree.go: the map `known` of results, and evalMatchTree.
use zoekt_archived.Prelude.{Bool, true, not, ◌≡◌, refl, sym, ◌∙◌, Option, none, some, if-intro}
use zoekt_archived.MatchTree.{
  Provider, Leaf, Tree, Trees, and_t, or_t, not_t, no_visit, leaf, nil, cons,
}
use zoekt_archived.MatchTree.Eval.{Verdict, known_of, set_known, eval_match_tree}
use zoekt_archived.MatchTree.Meaning.{leaf_meaning, meaning, all_meaning, any_meaning}

-- An entry of the map is the meaning of its node.
abbrev pub IsRight : Option Bool → Bool → Type 0
IsRight none b = Unit
IsRight (some v) b = v ≡ b

-- An entry stays right under an equation of meanings.
pub IsRight-eq : {b c : Bool} (k : Option Bool) → c ≡ b → IsRight k b → IsRight k c
IsRight-eq none e h = tt
IsRight-eq (some v) e h = h ∙ sym e

module _ {I R : Type 0} (cp : Provider R) where
  -- Every entry in a tree is right.
  mutual
    pub data IsSound : Tree I R → Type 0 where
      and_s :
          {k : Option Bool} {ts : Trees I R}
          → IsRight k (all_meaning cp ts)
          → AllSound ts
          → IsSound (and_t k ts)
      or_s :
          {k : Option Bool} {ts : Trees I R}
          → IsRight k (any_meaning cp ts)
          → AllSound ts
          → IsSound (or_t k ts)
      not_s :
          {k : Option Bool} {t : Tree I R}
          → IsRight k (not (meaning cp t))
          → IsSound t
          → IsSound (not_t k t)
      no_visit_s :
          {k : Option Bool} {t : Tree I R}
          → IsRight k (meaning cp t)
          → IsSound t
          → IsSound (no_visit k t)
      leaf_s : {k : Option Bool} {l : Leaf I R} → IsRight k (leaf_meaning cp l) → IsSound (leaf k l)

    pub data AllSound : Trees I R → Type 0 where
      nil_s : AllSound nil
      cons_s : {t : Tree I R} {ts : Trees I R} → IsSound t → AllSound ts → AllSound (cons t ts)

  -- What a verdict about a tree of meaning b promises.
  pub record IsVerdict (b : Bool) (r : Verdict (Tree I R)) : Type 0 where
    pub right : r.sure ≡ true → r.matched ≡ b
    pub same : meaning cp r.tree ≡ b
    pub sound : IsSound r.tree

  pub IsSound-known : {t : Tree I R} → IsSound t → IsRight (known_of t) (meaning cp t)
  unfolding meaning
  IsSound-known (and_s h s) = h
  IsSound-known (or_s h s) = h
  IsSound-known (not_s h s) = h
  IsSound-known (no_visit_s h s) = h
  IsSound-known (leaf_s h) = h

  meaning-set_known : (k : Option Bool) (t : Tree I R) → meaning cp (set_known k t) ≡ meaning cp t
  unfolding meaning
  meaning-set_known k (and_t _ ts) = refl
  meaning-set_known k (or_t _ ts) = refl
  meaning-set_known k (not_t _ t) = refl
  meaning-set_known k (no_visit _ t) = refl
  meaning-set_known k (leaf _ l) = refl

  set_known-IsSound :
      {t : Tree I R} (v : Bool) → IsSound t → v ≡ meaning cp t → IsSound (set_known (some v) t)
  unfolding meaning
  set_known-IsSound v (and_s h s) e = and_s e s
  set_known-IsSound v (or_s h s) e = or_s e s
  set_known-IsSound v (not_s h s) e = not_s e s
  set_known-IsSound v (no_visit_s h s) e = no_visit_s e s
  set_known-IsSound v (leaf_s h) e = leaf_s e

  pub eval_match_tree-IsVerdict :
      (k : Option Bool) (t : Tree I R) (r : Verdict (Tree I R))
      → IsSound t
      → IsRight k (meaning cp t)
      → IsVerdict (meaning cp t) r
      → IsVerdict (meaning cp t) (eval_match_tree k t r)
  unfolding eval_match_tree
  eval_match_tree-IsVerdict (some v) t r s h w = record { right = λ _. h; same = refl; sound = s }
  eval_match_tree-IsVerdict none t r s h w =
      if-intro (IsVerdict (meaning cp t)) r.sure _ r
        (λ e. record {
          right = λ _. w.right e;
          same = meaning-set_known (some r.matched) r.tree ∙ w.same;
          sound = set_known-IsSound r.matched w.sound (w.right e ∙ sym w.same);
        })
        (λ e. w)
