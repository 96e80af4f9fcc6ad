-- ===== src/Query/Expand.antt =====
-- query/query.go: ExpandFileContent, and VisitAtoms as the list of the calls that it makes.
use zoekt_archived.Prelude.{◌≡◌, refl, Bool, true, false, not, ◌&&◌, ◌||◌, arith, if◌then◌else◌}
use zoekt_archived.Query.Syntax.{
  Substring, Regexp, Atom, Q, or_q, atom, nil, cons, substring, regex,
}
use zoekt_archived.Query.Meaning.{holds}
use zoekt_archived.Query.Rewrite.{map_query}
use zoekt_archived.Query.Mapping.{
  is_atom, holds-map_query, all_atoms, all_atoms-map_query, all_atoms-every,
}

new_or : Q → Q → Q
new_or a b = or_q (cons a (cons b nil))

expand_atom : Atom → Q
unfolding new_or
expand_atom (substring s) =
    if not s.file_name && not s.content
    then new_or (atom (substring (record s { file_name = true })))
        (atom (substring (record s { content = true })))
    else atom (substring s)
expand_atom (regex r) =
    if not r.file_name && not r.content
    then new_or (atom (regex (record r { file_name = true })))
        (atom (regex (record r { content = true })))
    else atom (regex r)
expand_atom a = atom a

unfoldable pub expand_file_content : Q → Q
unfolding expand_atom
expand_file_content (atom a) = expand_atom a
expand_file_content q = q

-- A leaf with neither flag is matched in the file name or in the content.
pub record IsFileOrContent (v : Atom → Bool) : Type 0 where
  pub of_substring :
      (s : Substring)
      → s.file_name ≡ false
      → s.content ≡ false
      → v (substring s) ≡ (
          v (substring (record s { file_name = true }))
          || v (substring (record s { content = true })))
  pub of_regex :
      (r : Regexp)
      → r.file_name ≡ false
      → r.content ≡ false
      → v (regex r)
        ≡ (v (regex (record r { file_name = true })) || v (regex (record r { content = true })))

-- The leaf says where it is matched.
abbrev pub is_placed : Atom → Bool
is_placed (substring s) = s.file_name || s.content
is_placed (regex r) = r.file_name || r.content
is_placed _ = true

expand_file_content_others : (q : Q) → is_atom q ≡ false → expand_file_content q ≡ q
unfolding expand_file_content
expand_file_content_others (atom a) h = cc
expand_file_content_others _ h = refl

module _ (v : Atom → Bool) (splits : IsFileOrContent v) where
  holds-expand_atom : (a : Atom) → holds v (expand_atom a) ≡ v a
  unfolding expand_atom holds
  holds-expand_atom (substring s) = ground (arith, splits.of_substring s)
  holds-expand_atom (regex r) = ground (arith, splits.of_regex r)
  holds-expand_atom _ = refl

expand_atom-placed : (a : Atom) → all_atoms is_placed (expand_atom a) ≡ true
unfolding expand_atom all_atoms
expand_atom-placed (substring s) = ground arith
expand_atom-placed (regex r) = ground arith
expand_atom-placed _ = refl

-- Where a Substring or Regexp with neither flag is true if it is in the file name or in the content,
-- Map(q, ExpandFileContent) keeps the truth value of q, and leaves every such leaf with a flag.
pub expand_lem :
    (v : Atom → Bool)
    → IsFileOrContent v
    → (q : Q)
    → (holds v (map_query expand_file_content q) ≡ holds v q)
      × (all_atoms is_placed (map_query expand_file_content q) ≡ true)
expand_lem v splits q = (
  holds-map_query v v expand_file_content
      (record {
        others = expand_file_content_others;
        leaves = λ a. unfold expand_file_content in holds-expand_atom v splits a;
      })
      q,
  all_atoms-map_query (λ a. true) is_placed expand_file_content expand_file_content_others
      (λ a _. unfold expand_file_content in expand_atom-placed a) q (all_atoms-every q),
)
