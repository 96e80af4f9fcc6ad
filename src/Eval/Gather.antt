-- ===== src/Eval/Gather.antt =====
-- eval.go: gatherMatches, from the candidates that visitMatches collects.
pub mod Merge
use zoekt_archived.Prelude.{
  ℕ, ◌+◌, ◌-◌, ◌%◌, ◌^◌, Bool, true, false, not, ◌||◌, List, [], ◌∷◌, ltb, leb, if◌then◌else◌,
}
use zoekt_archived.MatchTree.{Candidate}

-- The loop that sets foundContentMatch.
unfoldable pub found_content_match : List Candidate → Bool
found_content_match [] = false
found_content_match (c ∷ cands) = not c.file_name || found_content_match cands

-- The loop that drops the matches of the file name, if there is one of the content.
unfoldable pub drop_file_names : Bool → List Candidate → List Candidate
drop_file_names found [] = []
drop_file_names found (c ∷ cands) =
    let rest = drop_file_names found cands in
    if not found || not c.file_name then c ∷ rest else rest

-- byteOffset + byteMatchSz, on uint32.
abbrev pub match_end : Candidate → ℕ
match_end c = (c.byte_offset + c.byte_match_sz) % 2 ^ 32

-- last.byteMatchSz = end - last.byteOffset, on uint32.
abbrev pub extend : Candidate → ℕ → Candidate
extend last end = record last { byte_match_sz = (end + (2 ^ 32 - last.byte_offset)) % 2 ^ 32 }

-- The loop that merges, with the last element of res. (The candidates are shared with the tree, which is
-- not read again before the next prepare makes new ones.)
unfoldable pub merge_into : Candidate → List Candidate → List Candidate
merge_into last [] = last ∷ []
merge_into last (c ∷ cands) =
    let grown = merge_into (extend last (match_end c)) cands in
    let same = merge_into last cands in
    let apart = merge_into c cands in
    if leb c.byte_offset (match_end last)
    then if ltb (match_end last) (match_end c) then grown else same
    else last ∷ apart

unfoldable pub merge_candidates : List Candidate → List Candidate
unfolding merge_into
merge_candidates [] = []
merge_candidates (c ∷ cands) = merge_into c cands

-- `sort` is sort.Sort by sortByOffsetSlice.
module _ (sort : List Candidate → List Candidate) where
  unfoldable pub gather_matches : List Candidate → List Candidate
  unfolding found_content_match drop_file_names merge_candidates
  gather_matches cands = merge_candidates (sort (drop_file_names (found_content_match cands) cands))
