-- ===== src/MatchTree/Eval.antt =====
-- matchtree.go: the matches methods and evalMatchTree.
use zoekt_archived.Prelude.{
  ℕ, ◌-◌, ◌%◌, ◌^◌, Bool, true, false, not, ◌&&◌, ◌||◌, List, [], ◌∷◌, Bytes, Option, none, some,
  bit_and, get_or, take, drop, length, map, ltb, ◌==◌, if◌then◌else◌,
}
use zoekt_archived.Bits.Fold.{case_folding_equals_runes}
use zoekt_archived.MatchTree.{
  Candidate, Provider, SubstrMatchTree, RegexpMatchTree, BranchQueryMatchTree, Leaf, Tree, Trees,
  doc, brute_force, no_match, branch_query, regexp, substr, and_t, or_t, not_t, no_visit, leaf, nil,
  cons,
}

abbrev pub cost_const : ℕ
cost_const = 0

abbrev pub cost_memory : ℕ
cost_memory = 1

abbrev pub cost_content : ℕ
cost_content = 2

abbrev pub cost_regexp : ℕ
cost_regexp = 3

unfoldable pub is_empty {ℓ} : {A : Type ℓ} → List A → Bool
is_empty [] = true
is_empty (x ∷ xs) = false

unfoldable pub bytes_compare_eq : Bytes → Bytes → Bool
bytes_compare_eq [] [] = true
bytes_compare_eq (a ∷ as') (b ∷ bs) = (a == b) && bytes_compare_eq as' bs
bytes_compare_eq _ _ = false

-- The four results of matches: the two Booleans, and the tree with its map entries after the call.
pub record Verdict (T : Type 0) : Type 0 where
  pub matched : Bool
  pub sure : Bool
  pub tree : T

module _ {R : Type 0} (cp : Provider R) where
  -- matchContent: the candidate with its size, and whether it matches, for slices that lie in the content. Where
  -- they do not, MatchTree.Panics has the panic, before which cost_loop asks for no answer.
  unfoldable pub match_content : Candidate → Bytes → Candidate × Bool
  unfolding bytes_compare_eq case_folding_equals_runes
  match_content m content =
      let folded =
        case_folding_equals_runes cp.to_lower m.substr_lowered (drop m.byte_offset content) in
      if m.case_sensitive
      then (
        record m { byte_match_sz = length m.substr_bytes },
        bytes_compare_eq m.substr_bytes (take (length m.substr_bytes) (drop m.byte_offset content)),
      )
      else (record m { byte_match_sz = folded.0 }, folded.1)

  -- The loop body of substrMatchTree.matches up to the test.
  unfoldable pub locate : Candidate → Candidate
  locate m =
      if (m.byte_offset == 0) && ltb 0 m.rune_offset
      then record m { byte_offset = cp.find_offset m.file_name m.rune_offset }
      else m

  unfoldable pub check_candidate : Candidate → Candidate × Bool
  unfolding match_content locate
  check_candidate m = match_content (locate m) (cp.content m.file_name)

  unfoldable pub prune : List Candidate → List Candidate
  prune [] = []
  prune (m ∷ ms) = if (check_candidate m).1 then (check_candidate m).0 ∷ prune ms else prune ms

  unfoldable pub substr_matches : {I : Type 0} → ℕ → SubstrMatchTree I → Verdict (SubstrMatchTree I)
  unfolding is_empty
  substr_matches cost t =
      if is_empty t.current
      then record { matched = false; sure = true; tree = t }
      else if t.file_name && ltb cost cost_memory
      then record { matched = false; sure = false; tree = t }
      else if not t.file_name && ltb cost cost_content
      then record { matched = false; sure = false; tree = t }
      else record {
        matched = not (is_empty (prune t.current));
        sure = true;
        tree = record t { current = prune t.current };
      }

  abbrev found_candidate : Bool → ℕ × ℕ → Candidate
  found_candidate file_name (start, end) = record {
    case_sensitive = false;
    file_name = file_name;
    substr_bytes = [];
    substr_lowered = [];
    file = 0;
    rune_offset = 0;
    byte_offset = start % 2 ^ 32;
    byte_match_sz = (end - start) % 2 ^ 32;
  }

  unfoldable pub find_candidates : RegexpMatchTree R → List Candidate
  find_candidates t =
      map (found_candidate t.file_name) (cp.find_all t.regexp (cp.content t.file_name))

  unfoldable pub regexp_matches : ℕ → RegexpMatchTree R → Verdict (RegexpMatchTree R)
  unfolding is_empty
  regexp_matches cost t =
      if ltb cost cost_regexp then record { matched = false; sure = false; tree = t } else record {
        matched = not (is_empty (find_candidates t));
        sure = true;
        tree = record t { found = find_candidates t };
      }

-- `t.fileMasks[t.docID]&t.mask != 0`
unfoldable pub branch_matches : BranchQueryMatchTree → Bool
branch_matches t = not (bit_and (get_or t.file_masks t.doc_id 0) t.mask == 0)

module _ {I R : Type 0} (cp : Provider R) (cost : ℕ) where
  -- The matches methods of the leaves.
  unfoldable pub leaf_matches : Leaf I R → Verdict (Leaf I R)
  unfolding substr_matches regexp_matches
  leaf_matches (doc t) = record { matched = not (is_empty t.current); sure = true; tree = doc t }
  leaf_matches (brute_force t) = record { matched = true; sure = true; tree = brute_force t }
  leaf_matches no_match = record { matched = false; sure = true; tree = no_match }
  leaf_matches (branch_query t) = record {
    matched = branch_matches t;
    sure = true;
    tree = branch_query t;
  }
  leaf_matches (regexp t) =
      let r = regexp_matches cp cost t in
      record { matched = r.matched; sure = r.sure; tree = regexp r.tree }
  leaf_matches (substr t) =
      let r = substr_matches cp cost t in
      record { matched = r.matched; sure = r.sure; tree = substr r.tree }

-- The entry of `known` for a node.
abbrev pub known_of : {I R : Type 0} → Tree I R → Option Bool
known_of (and_t k ts) = k
known_of (or_t k ts) = k
known_of (not_t k t) = k
known_of (no_visit k t) = k
known_of (leaf k l) = k

abbrev pub set_known : {I R : Type 0} → Option Bool → Tree I R → Tree I R
set_known k (and_t _ ts) = and_t k ts
set_known k (or_t _ ts) = or_t k ts
set_known k (not_t _ t) = not_t k t
set_known k (no_visit _ t) = no_visit k t
set_known k (leaf _ l) = leaf k l

-- evalMatchTree: the first argument is the entry of `known`, the last what matches would return.
unfoldable pub eval_match_tree :
    {I R : Type 0} → Option Bool → Tree I R → Verdict (Tree I R) → Verdict (Tree I R)
eval_match_tree (some v) t r = record { matched = v; sure = true; tree = t }
eval_match_tree none t r =
    if r.sure
    then record { matched = r.matched; sure = true; tree = set_known (some r.matched) r.tree }
    else r

abbrev pub tree_verdict : {T S : Type 0} → (T → S) → Verdict T → Verdict S
tree_verdict f r = record { matched = r.matched; sure = r.sure; tree = f r.tree }

-- One round of the loop of andMatchTree.matches, over what the later rounds return.
abbrev pub and_step :
    {I R : Type 0} → Verdict (Tree I R) → Trees I R → Verdict (Trees I R) → Verdict (Trees I R)
and_step r rest later =
    if r.sure && not r.matched
    then record { matched = false; sure = true; tree = cons r.tree rest }
    else tree_verdict (cons r.tree) later

abbrev pub or_step : {I R : Type 0} → Verdict (Tree I R) → Verdict (Trees I R) → Verdict (Trees I R)
or_step r later = tree_verdict (cons r.tree) later

module _ {I R : Type 0} (cp : Provider R) (cost : ℕ) where
  unfoldable mutual
    pub matches : Tree I R → Verdict (Tree I R)
    matches (and_t k ts) = tree_verdict (and_t k) (and_loop true ts)
    matches (or_t k ts) = tree_verdict (or_t k) (or_loop false true ts)
    matches (not_t k t) =
        let r = eval_match_tree (known_of t) t (matches t) in
        record { matched = not r.matched; sure = r.sure; tree = not_t k r.tree }
    matches (no_visit k t) = tree_verdict (no_visit k) (matches t)
    matches (leaf k l) = tree_verdict (leaf k) (leaf_matches cp cost l)

    -- `sure` is the loop's variable.
    pub and_loop : Bool → Trees I R → Verdict (Trees I R)
    and_loop sure nil = record { matched = true; sure = sure; tree = nil }
    and_loop sure (cons t ts) =
        let r = eval_match_tree (known_of t) t (matches t) in
        and_step r ts (and_loop (sure && r.sure) ts)

    pub or_loop : Bool → Bool → Trees I R → Verdict (Trees I R)
    or_loop matched sure nil = record { matched = matched; sure = sure; tree = nil }
    or_loop matched sure (cons t ts) =
        let r = eval_match_tree (known_of t) t (matches t) in
        or_step r (or_loop (if r.sure then matched || r.matched else matched) (sure && r.sure) ts)
