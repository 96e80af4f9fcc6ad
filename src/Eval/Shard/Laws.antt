-- ===== src/Eval/Shard/Laws.antt =====
-- eval.go: what indexData.simplify and indexData.List do to the meaning of a query on a shard.
use zoekt_archived.Prelude.{
  ◌≡◌, refl, sym, ap, ◌∙◌, Bool, true, false, not, ◌||◌, some, List, Bytes, arith,
}
use zoekt_archived.Query.Syntax.{
  Substring, Regexp, Atom, Q, Qs, and_q, or_q, not_q, const, atom, nil, cons, repo, repo_set,
  language, substring, regex, branch,
}
use zoekt_archived.Query.Meaning.{holds, holds_all, holds_any}
use zoekt_archived.Query.Rewrite.{
  map_query, simplify, is_vacuous, finish, scan_constants, eval_and_or_constants, negate, flatten,
  flatten_loop,
}
use zoekt_archived.Query.Rewrite.BottomUp.{
  bottom_up, bottom_up_list, is_evaluated, is_proper, all_proper,
}
use zoekt_archived.Query.Rewrite.Constants.{eval_constants-bottom_up}
use zoekt_archived.Query.Rewrite.Simplify.{holds-simplify, simplify_normal}
use zoekt_archived.Query.Mapping.{
  is_atom, RewritesLeaves, holds-map_query, all_atoms, all_atoms_list, all_atoms-map_query,
}
use zoekt_archived.Eval.Shard.{
  ShardInfo, contains, has_key, resolve, shard_simplify, const_value, list_repos,
}

-- The leaves that indexData.simplify decides have their value on the shard d.
pub record IsValuation (d : ShardInfo) (v : Atom → Bool) : Type 0 where
  pub of_repo : (p : Bytes) → v (repo p) ≡ contains d.repo_name p
  pub of_repo_set : (s : List Bytes) → v (repo_set s) ≡ has_key s d.repo_name
  pub of_language : (l : Bytes) → has_key d.languages l ≡ false → v (language l) ≡ false
  pub of_substring : (s : Substring) → is_vacuous (substring s) ≡ true → v (substring s) ≡ true
  pub of_regex : (r : Regexp) → is_vacuous (regex r) ≡ true → v (regex r) ≡ true
  pub of_branch : (p : Bytes) → is_vacuous (branch p) ≡ true → v (branch p) ≡ true

-- An empty RepoSet is true for Simplify and false on a shard; resolve removes it before.
abbrev relaxed : (Atom → Bool) → Atom → Bool
relaxed v a = is_vacuous a || v a

module _ (v : Atom → Bool) where
  mutual
    unfolding is_proper holds

    holds-relaxed : (q : Q) → is_proper q ≡ true → holds (relaxed v) q ≡ holds v q
    holds-relaxed (and_q qs) h = (holds_list-relaxed qs (ground arith)).0
    holds-relaxed (or_q qs) h = (holds_list-relaxed qs (ground arith)).1
    holds-relaxed (not_q q) h = ap not (holds-relaxed q h)
    holds-relaxed (const b) h = refl
    holds-relaxed (atom a) h = ground arith

    holds_list-relaxed :
        (qs : Qs)
        → all_proper qs ≡ true
        → (holds_all (relaxed v) qs ≡ holds_all v qs) × (holds_any (relaxed v) qs ≡ holds_any v qs)
    holds_list-relaxed nil h = (refl, refl)
    holds_list-relaxed (cons q qs) h = ground (arith, holds-relaxed q, holds_list-relaxed qs)

  holds-relaxed_evaluated : (q : Q) → is_evaluated q ≡ true → holds (relaxed v) q ≡ holds v q
  unfolding is_evaluated holds
  holds-relaxed_evaluated (const b) h = refl
  holds-relaxed_evaluated (and_q qs) h = holds-relaxed (and_q qs) h
  holds-relaxed_evaluated (or_q qs) h = holds-relaxed (or_q qs) h
  holds-relaxed_evaluated (not_q q) h = holds-relaxed (not_q q) h
  holds-relaxed_evaluated (atom a) h = holds-relaxed (atom a) h

resolve_others : (d : ShardInfo) (q : Q) → is_atom q ≡ false → resolve d q ≡ q
unfolding resolve
resolve_others d (atom a) h = cc
resolve_others d _ h = refl

module _ (d : ShardInfo) (v : Atom → Bool) (valuation : IsValuation d v) where
  holds-resolve : (a : Atom) → holds (relaxed v) (resolve d (atom a)) ≡ v a
  unfolding resolve holds is_vacuous
  holds-resolve (repo p) = sym (valuation.of_repo p)
  holds-resolve (repo_set s) = sym (valuation.of_repo_set s)
  holds-resolve (language l) = ground (arith, valuation.of_language l)
  holds-resolve (substring s) = ground (arith, valuation.of_substring s)
  holds-resolve (regex r) = ground (arith, valuation.of_regex r)
  holds-resolve (branch p) = ground (arith, valuation.of_branch p)
  holds-resolve _ = refl

  resolve-RewritesLeaves : RewritesLeaves (relaxed v) v (resolve d)
  resolve-RewritesLeaves = record { others = resolve_others d; leaves = holds-resolve }

pub holds-shard_simplify :
    (d : ShardInfo) (v : Atom → Bool)
    → IsValuation d v
    → (q : Q) → holds v (shard_simplify d q) ≡ holds v q
unfolding shard_simplify
holds-shard_simplify d v valuation q =
    let resolved : Q = map_query (resolve d) q in
    sym (holds-relaxed_evaluated v (simplify resolved) (simplify_normal resolved).1)
    ∙ holds-simplify (relaxed v) (λ a h. ground arith) resolved
    ∙ holds-map_query (relaxed v) v (resolve d) (resolve-RewritesLeaves d v valuation) q

-- A query without leaves becomes a constant.
abbrev no_atom : Atom → Bool
no_atom a = false

abbrev combined : (Atom → Bool) → Bool → Qs → Bool
combined v true qs = holds_all v qs
combined v false qs = holds_any v qs

module _ (v : Atom → Bool) where
  finish-const :
      (is_and : Bool) (c : Bool) (q : Q) (qs rs : Qs)
      → c ≡ holds v q
      → finish is_and (scan_constants is_and rs) ≡ const (combined v is_and qs)
      → finish is_and (scan_constants is_and (cons (const c) rs))
        ≡ const (combined v is_and (cons q qs))
  unfolding scan_constants holds
  finish-const true c q qs rs e h = ground arith
  finish-const false c q qs rs e h = ground arith

  mutual
    unfolding bottom_up all_atoms holds eval_and_or_constants negate

    bottom_up-const : (q : Q) → all_atoms no_atom q ≡ true → bottom_up q ≡ const (holds v q)
    bottom_up-const (and_q qs) h = finish_list-const true qs h
    bottom_up-const (or_q qs) h = finish_list-const false qs h
    bottom_up-const (not_q q) h = ap negate (bottom_up-const q h)
    bottom_up-const (const b) h = refl
    bottom_up-const (atom a) h = cc

    finish_list-const :
        (is_and : Bool) (qs : Qs)
        → all_atoms_list no_atom qs ≡ true
        → finish is_and (scan_constants is_and (bottom_up_list qs)) ≡ const (combined v is_and qs)
    finish_list-const true nil h = refl
    finish_list-const false nil h = refl
    finish_list-const is_and (cons q qs) h = rw (bottom_up-const q (ground arith)) (
        finish-const is_and (holds v q) q qs (bottom_up_list qs) refl
          (finish_list-const is_and qs (ground arith)))

  simplify-const : (q : Q) → all_atoms no_atom q ≡ true → simplify q ≡ const (holds v q)
  unfolding simplify flatten_loop flatten
  simplify-const q h = rw (eval_constants-bottom_up q ∙ bottom_up-const q h)

abbrev pub is_repo_atom : Atom → Bool
is_repo_atom (repo p) = true
is_repo_atom (repo_set s) = true
is_repo_atom _ = false

resolve-no_atom :
    (d : ShardInfo) (a : Atom)
    → is_repo_atom a ≡ true
    → all_atoms no_atom (resolve d (atom a)) ≡ true
unfolding resolve all_atoms
resolve-no_atom d (repo p) h = refl
resolve-no_atom d (repo_set s) h = refl
resolve-no_atom d _ h = cc

-- On a query whose leaves are all Repo or RepoSet, List gives no error, and lists the repository
-- exactly if the query is true under a valuation of the shard.
pub list_repos_lem :
    (d : ShardInfo) (v : Atom → Bool)
    → IsValuation d v
    → (q : Q) → all_atoms is_repo_atom q ≡ true
    → list_repos d q ≡ some (holds v q)
unfolding list_repos shard_simplify holds
list_repos_lem d v valuation q h =
    let same : holds v (map_query (resolve d) q) ≡ holds v q =
      ap (holds v) (sym simple) ∙ holds-shard_simplify d v valuation q in
    ap const_value simple ∙ ap some same
  where
    simple : shard_simplify d q ≡ const (holds v (map_query (resolve d) q))
    simple = simplify-const v (map_query (resolve d) q) (
        all_atoms-map_query is_repo_atom no_atom (resolve d) (resolve_others d) (resolve-no_atom d)
          q h)
