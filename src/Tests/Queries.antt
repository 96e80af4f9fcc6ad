-- ===== src/Tests/Queries.antt =====
-- Runs and instances of the theorems on query/query.go, and on simplify and List of eval.go.
use zoekt_archived.Prelude.{◌≡◌, refl, Bool, true, false, ◌||◌, not, some, [], ◌∷◌, Bytes, arith}
use zoekt_archived.Query.Syntax.{
  Atom, Q, and_q, or_q, not_q, const, atom, nil, cons, substring, regex, repo, repo_set, language,
}
use zoekt_archived.Query.Meaning.{holds}
use zoekt_archived.Query.Rewrite.{map_query, simplify}
use zoekt_archived.Query.Rewrite.BottomUp.{is_evaluated}
use zoekt_archived.Query.Rewrite.Flatten.{is_flat}
use zoekt_archived.Query.Rewrite.Simplify.{simplify_normal}
use zoekt_archived.Query.Mapping.{all_atoms}
use zoekt_archived.Query.Expand.{expand_file_content, IsFileOrContent, is_placed, expand_lem}
use zoekt_archived.Eval.Shard.{ShardInfo, contains, has_key, shard_simplify, list_repos}
use zoekt_archived.Eval.Shard.Laws.{IsValuation, list_repos_lem}

abbrev plain : Bytes → Q
plain p = atom (
    substring
      (record { pattern_text = p; case_sensitive = false; file_name = false; content = false }))

-- (and (and "a" "") (or "b") TRUE)
abbrev nested : Q
nested = and_q (
    cons (and_q (cons (plain (b'a' ∷ [])) (cons (plain []) nil)))
      (cons (or_q (cons (plain (b'b' ∷ [])) nil)) (cons (const true) nil)))

simplify-nested : simplify nested ≡ and_q (cons (plain (b'a' ∷ [])) (cons (plain (b'b' ∷ [])) nil))
unfolding simplify
simplify-nested = refl

-- A repository set with no names is TRUE for Simplify, and FALSE on every shard.
simplify_empty_repo_set : simplify (atom (repo_set [])) ≡ const true
unfolding simplify
simplify_empty_repo_set = refl

shard_simplify_empty_repo_set :
    shard_simplify (record { repo_name = b'r' ∷ []; languages = [] }) (atom (repo_set []))
    ≡ const false
unfolding shard_simplify
shard_simplify_empty_repo_set = refl

-- Every leaf true.
abbrev everything : Atom → Bool
everything a = true

simplify_normal_example :
    (is_flat (simplify nested) ≡ true) × (is_evaluated (simplify nested) ≡ true)
simplify_normal_example = simplify_normal nested

-- Leaves are true on file names only.
abbrev in_file_name : Atom → Bool
in_file_name (substring s) = s.file_name || not s.content
in_file_name (regex r) = r.file_name || not r.content
in_file_name a = false

in_file_name-IsFileOrContent : IsFileOrContent in_file_name
in_file_name-IsFileOrContent = record {
  of_substring = λ s f c. ground arith;
  of_regex = λ r f c. ground arith;
}

expand_lem_example :
    (holds in_file_name (map_query expand_file_content nested) ≡ holds in_file_name nested)
    × (all_atoms is_placed (map_query expand_file_content nested) ≡ true)
expand_lem_example = expand_lem in_file_name in_file_name-IsFileOrContent nested

abbrev shard : ShardInfo
shard = record { repo_name = b'r' ∷ b'e' ∷ []; languages = (b'g' ∷ []) ∷ [] }

abbrev on_shard : Atom → Bool
on_shard (repo p) = contains shard.repo_name p
on_shard (repo_set s) = has_key s shard.repo_name
on_shard (language l) = has_key shard.languages l
on_shard a = true

on_shard-IsValuation : IsValuation shard on_shard
on_shard-IsValuation = record {
  of_repo = λ p. refl;
  of_repo_set = λ s. refl;
  of_language = λ l h. h;
  of_substring = λ s h. refl;
  of_regex = λ r h. refl;
  of_branch = λ p h. refl;
}

abbrev repo_query : Q
repo_query = or_q (cons (atom (repo (b'e' ∷ []))) (cons (not_q (atom (repo_set []))) nil))

list_repos_lem_example : list_repos shard repo_query ≡ some (holds on_shard repo_query)
list_repos_lem_example =
    list_repos_lem shard on_shard on_shard-IsValuation repo_query (unfold all_atoms in refl)
