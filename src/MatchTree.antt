-- ===== src/MatchTree.antt =====
-- matchtree.go and matchiter.go: the match tree of a query on a shard.
pub mod Eval
pub mod Meaning
pub mod Entries
pub mod Leaves
pub mod Sound
pub mod Decided
pub mod Next
pub mod Ready
pub mod Skip
pub mod Reset
pub mod Pass
pub mod Panics
pub mod Fits
use zoekt_archived.Prelude.{ℕ, Bool, List, Bytes, Option, ◌^◌, ◌-◌}

-- candidateMatch
pub record Candidate : Type 0 where
  pub case_sensitive : Bool
  pub file_name : Bool
  pub substr_bytes : Bytes
  pub substr_lowered : Bytes
  pub file : ℕ
  pub rune_offset : ℕ
  pub byte_offset : ℕ
  pub byte_match_sz : ℕ

-- The interface matchIterator. nextDoc and candidates change the iterator.
pub record MatchIterator (I : Type 0) : Type 0 where
  pub next_doc : I → ℕ × I
  pub prepare : ℕ → I → I
  pub candidates : I → List Candidate × I

-- What the tree reads of a contentProvider that stands at a document, with unicode.ToLower. `find_all`
-- is FindAllIndex of a compiled regexp of package regexp; R is the type of those.
pub record Provider (R : Type 0) : Type 0 where
  pub content : Bool → Bytes
  pub find_offset : Bool → ℕ → ℕ
  pub to_lower : ℕ → ℕ
  pub find_all : R → Bytes → List (ℕ × ℕ)

-- bruteForceMatchTree
pub record BruteForce : Type 0 where
  pub first_done : Bool
  pub doc_id : ℕ

pub record SubstrMatchTree (I : Type 0) : Type 0 where
  pub match_iterator : I
  pub file_name : Bool
  pub current : List Candidate
  pub cont_evaluated : Bool

pub record RegexpMatchTree (R : Type 0) : Type 0 where
  pub regexp : R
  pub file_name : Bool
  pub re_evaluated : Bool
  pub found : List Candidate
  pub brute_force : BruteForce

pub record BranchQueryMatchTree : Type 0 where
  pub file_masks : List ℕ
  pub mask : ℕ
  pub first_done : Bool
  pub doc_id : ℕ

pub record DocMatchTree : Type 0 where
  pub docs : List ℕ
  pub current : List ℕ

-- The leaf types.
pub data Leaf (I R : Type 0) : Type 0 where
  doc : DocMatchTree → Leaf I R
  brute_force : BruteForce → Leaf I R
  no_match : Leaf I R
  branch_query : BranchQueryMatchTree → Leaf I R
  regexp : RegexpMatchTree R → Leaf I R
  substr : SubstrMatchTree I → Leaf I R

-- A node carries its entry of the map `known`, whose keys are the nodes (pointers); newMatchTree makes
-- each node once, so no two places of a tree share one.
mutual
  pub data Tree (I R : Type 0) : Type 0 where
    and_t : Option Bool → Trees I R → Tree I R
    or_t : Option Bool → Trees I R → Tree I R
    not_t : Option Bool → Tree I R → Tree I R
    no_visit : Option Bool → Tree I R → Tree I R
    leaf : Option Bool → Leaf I R → Tree I R

  pub data Trees (I R : Type 0) : Type 0 where
    nil : Trees I R
    cons : Tree I R → Trees I R → Trees I R

abbrev pub max_u32 : ℕ
max_u32 = 2 ^ 32 - 1
