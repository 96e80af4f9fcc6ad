-- ===== src/Eval/Shard.antt =====
-- eval.go: indexData.simplify and indexData.List.
pub mod Laws
use zoekt_archived.Prelude.{
  Bool, true, false, ◌&&◌, ◌||◌, Option, none, some, List, [], ◌∷◌, Bytes, if◌then◌else◌, ◌==◌,
}
use zoekt_archived.Query.Syntax.{Q, const, atom, repo, repo_set, language}
use zoekt_archived.Query.Rewrite.{map_query, simplify}

-- strings.HasPrefix, strings.Contains and string equality.
unfoldable pub has_prefix : Bytes → Bytes → Bool
has_prefix s [] = true
has_prefix [] (p ∷ ps) = false
has_prefix (c ∷ s) (p ∷ ps) = (c == p) && has_prefix s ps

unfoldable pub contains : Bytes → Bytes → Bool
unfolding has_prefix
contains [] p = has_prefix [] p
contains (c ∷ s) p = has_prefix (c ∷ s) p || contains s p

unfoldable pub bytes_eq : Bytes → Bytes → Bool
bytes_eq [] [] = true
bytes_eq (a ∷ as') (b ∷ bs) = (a == b) && bytes_eq as' bs
bytes_eq _ _ = false

unfoldable pub has_key : List Bytes → Bytes → Bool
unfolding bytes_eq
has_key [] k = false
has_key (j ∷ js) k = bytes_eq j k || has_key js k

-- What indexData.simplify reads: repoMetaData.Name and the keys of metaData.LanguageMap.
pub record ShardInfo : Type 0 where
  pub repo_name : Bytes
  pub languages : List Bytes

unfoldable pub resolve : ShardInfo → Q → Q
unfolding contains has_key
resolve d (atom (repo p)) = const (contains d.repo_name p)
resolve d (atom (repo_set s)) = const (has_key s d.repo_name)
resolve d (atom (language l)) = if has_key d.languages l then atom (language l) else const false
resolve d q = q

unfoldable pub shard_simplify : ShardInfo → Q → Q
unfolding resolve map_query simplify
shard_simplify d q = simplify (map_query (resolve d) q)

-- `c, ok := q.(*query.Const)`
unfoldable pub const_value : Q → Option Bool
const_value (const b) = some b
const_value _ = none

-- List: the error (`none`), or whether the shard's repository is listed.
unfoldable pub list_repos : ShardInfo → Q → Option Bool
unfolding const_value
list_repos d q = const_value (shard_simplify d q)
