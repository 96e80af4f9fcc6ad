-- ===== src/Eval/Search.antt =====
-- eval.go: the loop of indexData.Search over the documents of a shard.
pub mod Decide
pub mod Complete
use zoekt_archived.Prelude.{
  ℕ, zero, suc, ◌+◌, ◌-◌, ◌%◌, ◌^◌, Bool, true, false, not, ◌&&◌, ◌||◌, List, [], ◌∷◌, ◌++◌, ltb,
  leb, ◌==◌, if◌then◌else◌,
}
use zoekt_archived.MatchTree.{MatchIterator, Provider, Tree}
use zoekt_archived.MatchTree.Eval.{matches, cost_regexp}
use zoekt_archived.MatchTree.Panics.{panics}
use zoekt_archived.MatchTree.Next.{next_doc, prepare, forget}

-- How the loop over the cost levels ends: `continue nextFileMatch`, past the loop, log.Panicf, or a panic
-- in matches.
pub data Decision (T : Type 0) : Type 0 where
  rejected : T → Decision T
  accepted : T → Decision T
  undecided : Decision T
  crashed : Decision T

module _ {I R : Type 0} (cp : Provider R) where
  -- for cost := costMin; cost <= costMax; cost++, by the rounds that are left.
  unfoldable pub cost_loop : ℕ → ℕ → Tree I R → Decision (Tree I R)
  cost_loop zero cost t = accepted t
  cost_loop (suc n) cost t =
      let r = matches cp cost t in
      let later = cost_loop n (cost + 1) r.tree in
      if panics cp cost t
      then crashed
      else if r.sure && not r.matched
      then rejected r.tree
      else if (cost == cost_regexp) && not r.sure
      then undecided
      else later

  -- The four costs from costMin = 0 to costMax = 3, with a fresh map of results.
  unfoldable pub decide_doc : Tree I R → Decision (Tree I R)
  unfolding cost_loop
  decide_doc t = cost_loop 4 0 (forget t)

-- SearchOptions after SetDefaults, and len(d.fileBranchMasks), d.repoListEntry.Stats.Documents.
pub record Limits : Type 0 where
  pub shard_max_match_count : ℕ
  pub shard_max_important_match : ℕ
  pub doc_count : ℕ
  pub documents : ℕ

-- What the loop reads of its surroundings: the provider at each document, whether the context is done
-- at a round, and of a matching file its number of line matches and whether its score is important,
-- d.subRepos, and len(d.subRepoPaths).
pub record Surroundings (I R : Type 0) : Type 0 where
  pub provider : ℕ → Provider R
  pub is_canceled : ℕ → Bool
  pub line_matches : ℕ → Tree I R → ℕ
  pub is_important : ℕ → Tree I R → Bool
  pub sub_repo : ℕ → ℕ
  pub sub_repo_paths : ℕ

-- `next_free` is lastDoc + 1, and `files` lists the documents appended to res.Files.
pub record SearchState (I R : Type 0) : Type 0 where
  pub tree : Tree I R
  pub next_free : ℕ
  pub files : List ℕ
  pub match_count : ℕ
  pub important_match_count : ℕ
  pub files_considered : ℕ
  pub files_skipped : ℕ

-- How the loop ends: `exhausted` on nextDoc >= docCount, `limited` at a document at which a limit is
-- reached or the context is done, `panicked` by log.Panicf or in
-- matches. `out_of_fuel` belongs to the model.
pub data Outcome (I R : Type 0) : Type 0 where
  exhausted : SearchState I R → Outcome I R
  limited : ℕ → SearchState I R → Outcome I R
  panicked : Outcome I R
  out_of_fuel : Outcome I R

-- The state once the document is rejected, and once it is accepted.
abbrev pub pass_over : {I R : Type 0} → SearchState I R → ℕ → Tree I R → SearchState I R
pass_over s d t = record s {
  tree = t;
  next_free = d + 1;
  files_considered = s.files_considered + 1;
}

abbrev pub report :
    {I R : Type 0} → Surroundings I R → SearchState I R → ℕ → Tree I R → SearchState I R
report around s d t = record s {
  tree = t;
  next_free = d + 1;
  files = s.files ++ d ∷ [];
  match_count = s.match_count + around.line_matches d t;
  important_match_count =
      if around.is_important d t then s.important_match_count + 1 else s.important_match_count;
  files_considered = s.files_considered + 1;
}

-- nextDoc, made larger than lastDoc.
abbrev pub candidate_doc : {I R : Type 0} → MatchIterator I → SearchState I R → ℕ
candidate_doc it s =
    if ltb (next_doc it s.tree).0 s.next_free then s.next_free else (next_doc it s.tree).0

module _ {I R : Type 0} (limits : Limits) (around : Surroundings I R) where
  unfoldable pub is_over_limit : ℕ → SearchState I R → Bool
  is_over_limit round s =
      around.is_canceled round
      || (leb limits.shard_max_match_count s.match_count
          || leb limits.shard_max_important_match s.important_match_count)

  -- s > 0 && s >= uint32(len(d.subRepoPaths))
  unfoldable pub is_corrupt : ℕ → Bool
  is_corrupt d =
      ltb 0 (around.sub_repo d) && leb (around.sub_repo_paths % 2 ^ 32) (around.sub_repo d)

module _ {I R : Type 0} (it : MatchIterator I) (limits : Limits) (around : Surroundings I R) where
  unfoldable pub search_loop : ℕ → ℕ → SearchState I R → Outcome I R
  unfolding is_over_limit is_corrupt
  search_loop zero round s = out_of_fuel
  search_loop (suc fuel) round s =
      let t = (next_doc it s.tree).1 in
      let d = candidate_doc it s in
      let visited = elim (decide_doc (around.provider d) (prepare it d t)) as (λ _. Outcome I R) [
        | rejected t' ↦ search_loop fuel (round + 1) (pass_over s d t')
        | accepted t' ↦
            if is_corrupt limits around d
            then panicked
            else search_loop fuel (round + 1) (report around s d t')
        | undecided ↦ panicked
        | crashed ↦ panicked
      ] in
      if leb limits.doc_count d
      then exhausted (record s { tree = t })
      else if is_over_limit limits around round s
      then limited d (record s {
        tree = t;
        next_free = d + 1;
        files_skipped = s.files_skipped + (limits.documents - d);
      })
      else visited

  -- Every round but the last takes a document, so docCount + 1 rounds are enough.
  unfoldable pub search : Tree I R → Outcome I R
  unfolding search_loop
  search t = search_loop (suc limits.doc_count) 0 (record {
    tree = t;
    next_free = 0;
    files = [];
    match_count = 0;
    important_match_count = 0;
    files_considered = 0;
    files_skipped = 0;
  })
