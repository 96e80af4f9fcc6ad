-- ===== src/Tests/Trees.antt =====
-- Runs and instances of the theorems on matchtree.go, and on the search loop of eval.go.
use zoekt_archived.Prelude.{
  if-intro, ◌%◌, leb, ltb, ◌==◌, ◌||◌, ◌-◌, ◌^◌, if◌then◌else◌, zero, suc, ◌+◌, get_or, length, ◌≡◌,
  refl, ℕ, ◌<◌, false, some, none, List, [], ◌∷◌, arith,
}
use zoekt_archived.MatchTree.{
  Candidate, MatchIterator, Provider, Leaf, Tree, doc, no_match, branch_query, substr, and_t, or_t,
  not_t, leaf, nil, cons, max_u32,
}
use zoekt_archived.MatchTree.Eval.{
  prune, check_candidate, matches, leaf_matches, is_empty, branch_matches, eval_match_tree,
}
use zoekt_archived.MatchTree.Meaning.{meaning, leaf_meaning}
use zoekt_archived.MatchTree.Entries.{IsSound, or_s, not_s, leaf_s, nil_s, cons_s, IsVerdict}
use zoekt_archived.MatchTree.Sound.{matches-IsVerdict}
use zoekt_archived.MatchTree.Next.{
  prepare, next_doc, prepare_leaf, next_doc_of_leaf, forget, split_at_doc, skip_before,
}
use zoekt_archived.MatchTree.Ready.{IsMatchIterator, IsReady}
use zoekt_archived.MatchTree.Eval.{locate}
use zoekt_archived.MatchTree.Panics.{panics, eval_panics, leaf_panics, slice_panics}
use zoekt_archived.MatchTree.Fits.{AllInContent, Fits, prepare-Fits}
use zoekt_archived.MatchTree.Skip.{next_doc_lem}
use zoekt_archived.MatchTree.Pass.{pass_lem}
use zoekt_archived.Hits.{in_memory, first_in_memory, next_in_memory}
use zoekt_archived.Hits.Memory.{IsAscending, has_posting, in_memory-IsHitIterator}
use zoekt_archived.Docs.NgramIter.{
  hit_candidate, collect, file_start, NgramIter, ngram_iterator, candidates_of_ngram,
  next_doc_of_ngram, prepare_ngram,
}
use zoekt_archived.Docs.NgramHits.{IsAt}
use zoekt_archived.Docs.NgramLaws.{ngram_iterator-IsMatchIterator}
use zoekt_archived.Tests.Postings.{ends, ends-IsSorted}
use zoekt_archived.Eval.Search.{Limits, Surroundings, Outcome, exhausted, decide_doc, search}
use zoekt_archived.Eval.Search.Decide.{Decides, decide_doc-Decides}

-- Documents 0 to 4 of ten bytes each, but for an empty one, and the hits of an n-gram in two of them.
abbrev Hits : Type 0
Hits = NgramIter (List ℕ)

abbrev hits : MatchIterator Hits
hits = ngram_iterator in_memory length

abbrev start : Hits
start = record { left_pad = 1; right_pad = 2; iter = 12 ∷ 31 ∷ []; ends = ends; file_idx = 0 }

abbrev IsAtDoc : Hits → ℕ → Type 0
IsAtDoc = IsAt in_memory (IsAscending 0) has_posting length in_memory-IsHitIterator

hits-IsMatchIterator : IsMatchIterator hits IsAtDoc
hits-IsMatchIterator =
    ngram_iterator-IsMatchIterator in_memory (IsAscending 0) has_posting length
      in_memory-IsHitIterator

start_fits : (k : ℕ) → get_or ends k 0 + 1 + 2 < max_u32
start_fits zero = omega arith
start_fits (suc zero) = omega arith
start_fits (suc (suc zero)) = omega arith
start_fits (suc (suc (suc zero))) = omega arith
start_fits (suc (suc (suc (suc zero)))) = omega arith
start_fits (suc (suc (suc (suc (suc k))))) = omega arith

start-IsAtDoc : (d : ℕ) → IsAtDoc start d
unfolding IsAscending
start-IsAtDoc d = record {
  iter_ok = (omega arith, (omega arith, (omega arith, (omega arith, tt))));
  has_ends = record { sorted = ends-IsSorted; few = omega arith; fits = start_fits };
  in_ends = λ lt. omega arith;
  not_passed = λ lt before. absurd (omega arith);
}

abbrev Regexp : Type 0
Regexp = Unit {0}

abbrev provider : Provider Regexp
provider = record {
  content = λ name. b'a' ∷ b'b' ∷ [];
  find_offset = λ name r. r % 3;
  to_lower = λ c. c;
  find_all = λ r text. (0, 1) ∷ [];
}

abbrev docs_1_4 : Leaf Hits Regexp
docs_1_4 = doc (record { docs = 1 ∷ 4 ∷ []; current = [] })

abbrev branch_2 : Leaf Hits Regexp
branch_2 =
    branch_query
      (record { file_masks = 1 ∷ 3 ∷ 1 ∷ 2 ∷ 2 ∷ []; mask = 2; first_done = false; doc_id = 0 })

abbrev substring : Leaf Hits Regexp
substring =
    substr
      (record { match_iterator = start; current = []; file_name = false; cont_evaluated = false })

-- (and (docs 1 4) (not none) (or none (branch 2)) substring)
abbrev tree : Tree Hits Regexp
tree = and_t none (
    cons (leaf none docs_1_4) (
      cons (not_t none (leaf none no_match)) (
        cons (or_t none (cons (leaf none no_match) (cons (leaf none branch_2) nil)))
          (cons (leaf none substring) nil))))

abbrev limits : Limits
limits = record {
  shard_max_match_count = 100;
  shard_max_important_match = 10;
  doc_count = 5;
  documents = 5;
}

abbrev around : Surroundings Hits Regexp
around = record {
  provider = λ d. provider;
  is_canceled = λ round. false;
  line_matches = λ d t. 1;
  is_important = λ d t. false;
  sub_repo = λ d. d % 2;
  sub_repo_paths = 2;
}

abbrev files_of : Outcome Hits Regexp → List ℕ
files_of (exhausted s) = s.files
files_of _ = []

search_tree : files_of (search hits limits around tree) ≡ 1 ∷ 4 ∷ []
unfolding search decide_doc panics matches prepare next_doc leaf_matches prepare_leaf
    next_doc_of_leaf is_empty branch_matches eval_match_tree forget split_at_doc skip_before
    candidates_of_ngram next_doc_of_ngram prepare_ngram first_in_memory next_in_memory prune
    check_candidate eval_panics leaf_panics
search_tree = refl

tree-IsReady : (d : ℕ) → d < 5 → IsReady IsAtDoc d tree
unfolding IsReady
tree-IsReady d lt = (tt, (tt, ((tt, (λ h. cc, tt)), (start-IsAtDoc d, tt))))

-- The hits carry no pattern, and findOffset stays in the content.
hit_inside : (file offset : ℕ) → slice_panics provider (hit_candidate file offset) ≡ false
unfolding slice_panics locate
hit_inside file offset = ground arith

found_inside :
    (i : Hits) (n : ℕ) (s : List ℕ) → AllInContent provider (collect in_memory length n i s).0
unfolding collect
found_inside i zero s = tt
found_inside i (suc n) s =
    let P = λ (r : List Candidate × List ℕ). AllInContent provider r.0 in
    let f = first_in_memory s in
    let start = file_start i.ends i.file_idx in
    let end = get_or i.ends i.file_idx 0 in
    let rest = collect in_memory length n i (next_in_memory f s) in
    let later = found_inside i n (next_in_memory f s) in
    let o = (f + (2 ^ 32 - start) + (2 ^ 32 - i.left_pad)) % 2 ^ 32 in
    let taken : List Candidate × List ℕ = (hit_candidate i.file_idx o ∷ rest.0, rest.1) in
    let outside = ltb f ((i.left_pad + start) % 2 ^ 32) || ltb end ((f + i.right_pad) % 2 ^ 32) in
    if-intro P ((f == max_u32) || leb end f) ([], s) (if outside then rest else taken) (λ _. tt)
      (λ _. if-intro P outside rest taken (λ _. later) (λ _. (hit_inside i.file_idx o, later)))

hits_inside :
    (i : Hits) (d : ℕ) → IsAtDoc i d → AllInContent provider (hits.candidates (hits.prepare d i)).0
unfolding candidates_of_ngram
hits_inside i d at =
    let j = prepare_ngram in_memory length d i in
    let found = collect in_memory length (suc (length j.iter)) j j.iter in
    if-intro (λ (r : List Candidate × Hits). AllInContent provider r.0)
      (leb (length j.ends) j.file_idx) ([], j) (found.0, record j { iter = found.1 }) (λ _. tt)
      (λ _. found_inside j (suc (length j.iter)) j.iter)

tree-Fits : (d : ℕ) → d < 5 → Fits provider (prepare hits d tree)
tree-Fits d lt =
    prepare-Fits hits IsAtDoc provider d (λ s r. hits_inside s d r) tree (tree-IsReady d lt)

decide_doc-Decides_example :
    Decides
      (meaning provider (prepare hits 4 tree))
      (prepare hits 4 tree)
      (decide_doc provider (prepare hits 4 tree))
decide_doc-Decides_example =
    decide_doc-Decides provider (prepare hits 4 tree) (tree-Fits 4 (omega arith))

-- A tree with an entry in the map of results.
abbrev half_known : Tree Hits Regexp
half_known =
    or_t none (cons (leaf (some false) no_match) (cons (not_t none (leaf none docs_1_4)) nil))

half_known-IsSound : IsSound provider half_known
unfolding meaning leaf_meaning
half_known-IsSound = or_s tt (cons_s (leaf_s refl) (cons_s (not_s tt (leaf_s tt)) nil_s))

matches-IsVerdict_example :
    IsVerdict provider (meaning provider half_known) (matches provider 1 half_known)
matches-IsVerdict_example = matches-IsVerdict provider 1 half_known half_known-IsSound

next_doc_lem_example :
    IsReady IsAtDoc 2 (next_doc hits tree).1
    × (meaning provider (prepare hits 2 (next_doc hits tree).1)
        ≡ meaning provider (prepare hits 2 tree))
    × (2 < (next_doc hits tree).0 → meaning provider (prepare hits 2 tree) ≡ false)
next_doc_lem_example =
    next_doc_lem hits IsAtDoc hits-IsMatchIterator provider 2 (omega arith) tree
      (tree-IsReady 2 (omega arith))

pass_lem_example :
    IsReady IsAtDoc 4 (prepare hits 1 tree)
    × (meaning provider (prepare hits 4 (prepare hits 1 tree))
        ≡ meaning provider (prepare hits 4 tree))
pass_lem_example =
    pass_lem hits IsAtDoc hits-IsMatchIterator provider 1 4 tree (prepare hits 1 tree) (omega arith)
      (tree-IsReady 1 (omega arith)) refl
