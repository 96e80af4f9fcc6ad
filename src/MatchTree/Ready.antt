-- ===== src/MatchTree/Ready.antt =====
-- matchtree.go: what nextDoc and prepare rely on, and the laws of a matchIterator.
use zoekt_archived.Prelude.{ℕ, ◌<◌, ◌≡◌, Bool, true, List, []}
use zoekt_archived.MatchTree.{
  Candidate, MatchIterator, Leaf, Tree, Trees, doc, brute_force, no_match, branch_query, regexp,
  substr, and_t, or_t, not_t, no_visit, leaf, nil, cons,
}

module _ {I : Type 0} (it : MatchIterator I) where
  -- The candidates of a document, and the iterator once they are collected.
  abbrev pub hits : I → ℕ → List Candidate
  hits s d = (it.candidates (it.prepare d s)).0

  abbrev pub after : I → ℕ → I
  after s d = (it.candidates (it.prepare d s)).1

  -- `Ready s d`: the document d may be the next one. Documents before nextDoc have no candidates, and
  -- neither nextDoc nor the documents passed change those of later ones.
  pub record IsMatchIterator (Ready : I → ℕ → Type 0) : Type 0 where
    pub next_ready : (s : I) (d : ℕ) → Ready s d → Ready (it.next_doc s).1 d
    pub next_same : (s : I) (d : ℕ) → Ready s d → hits (it.next_doc s).1 d ≡ hits s d
    pub next_skips : (s : I) (d : ℕ) → Ready s d → d < (it.next_doc s).0 → hits s d ≡ []
    pub pass_ready : (s : I) (c d : ℕ) → Ready s c → c < d → Ready (after s c) d
    pub pass_same : (s : I) (c d : ℕ) → Ready s c → c < d → hits (after s c) d ≡ hits s d

-- The argument of prepare is strictly increasing.
abbrev pub IsBehind : ℕ → Bool → ℕ → Type 0
IsBehind d first_done doc_id = first_done ≡ true → doc_id < d

module _ {I R : Type 0} (Ready : I → ℕ → Type 0) (d : ℕ) where
  abbrev pub IsReadyLeaf : Leaf I R → Type 0
  IsReadyLeaf (doc t) = Unit
  IsReadyLeaf (brute_force t) = IsBehind d t.first_done t.doc_id
  IsReadyLeaf no_match = Unit
  IsReadyLeaf (branch_query t) = IsBehind d t.first_done t.doc_id
  IsReadyLeaf (regexp t) = IsBehind d t.brute_force.first_done t.brute_force.doc_id
  IsReadyLeaf (substr t) = Ready t.match_iterator d

  unfoldable mutual
    pub IsReady : Tree I R → Type 0
    IsReady (and_t k ts) = AllReady ts
    IsReady (or_t k ts) = AllReady ts
    IsReady (not_t k t) = IsReady t
    IsReady (no_visit k t) = IsReady t
    IsReady (leaf k l) = IsReadyLeaf l

    pub AllReady : Trees I R → Type 0
    AllReady nil = Unit
    AllReady (cons t ts) = IsReady t × AllReady ts
