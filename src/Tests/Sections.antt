-- ===== src/Tests/Sections.antt =====
-- matchiter.go and eval.go: candidates trimmed to the sections of a file, and merged.
use zoekt_archived.Prelude.{ℕ, true, ◌≡◌, refl, List, [], ◌∷◌, arith}
use zoekt_archived.MatchTree.{Candidate, MatchIterator}
use zoekt_archived.Eval.Gather.{merge_candidates, gather_matches}
use zoekt_archived.Eval.Gather.Merge.{IsByOffset, IsApart, covers, merge_candidates_lem}
use zoekt_archived.Docs.NgramIter.{hit_candidate}
use zoekt_archived.Docs.Trim.{TrimIter, candidates_of_trim}

-- An iterator that has its candidates as its state.
abbrev stored : MatchIterator (List Candidate)
stored = record { next_doc = λ s. (0, s); prepare = λ d s. s; candidates = λ s. (s, []) }

-- Three candidates of three runes in the second file, with two sections of that file.
abbrev trimmed : TrimIter (List Candidate)
trimmed = record {
  inner = hit_candidate 1 2 ∷ hit_candidate 1 6 ∷ hit_candidate 1 9 ∷ [];
  pattern_size = 3;
  file_end_runes = 10 ∷ 30 ∷ [];
  doc_id = 1;
  sections = record { start = 12; end = 15 } ∷ record { start = 18; end = 23 } ∷ [];
}

trimmed_test : (candidates_of_trim stored trimmed).0 ≡ hit_candidate 1 2 ∷ hit_candidate 1 9 ∷ []
unfolding candidates_of_trim
trimmed_test = refl

-- A match at an offset, of a size.
abbrev match_at : ℕ → ℕ → Candidate
match_at offset size = record (hit_candidate 0 0) { byte_offset = offset; byte_match_sz = size }

abbrev found : List Candidate
found = match_at 2 3 ∷ match_at 4 5 ∷ match_at 5 1 ∷ match_at 12 2 ∷ []

merge_test : merge_candidates found ≡ match_at 2 7 ∷ match_at 12 2 ∷ []
unfolding merge_candidates
merge_test = refl

-- A match of the content drops those of the name.
gather_test :
    gather_matches (λ cs. cs) (record (hit_candidate 0 0) { file_name = true } ∷ match_at 3 2 ∷ [])
    ≡ match_at 3 2 ∷ []
unfolding gather_matches
gather_test = refl

found-IsByOffset : IsByOffset 0 found
unfolding IsByOffset
found-IsByOffset = (
  omega arith,
  (
    omega arith,
    (omega arith, (omega arith, (omega arith, (omega arith, (omega arith, (omega arith, tt)))))),
  ),
)

merge_candidates_lem_example :
    IsApart 0 (merge_candidates found)
    × ((x : ℕ) → covers (merge_candidates found) x ≡ covers found x)
merge_candidates_lem_example = merge_candidates_lem found found-IsByOffset
