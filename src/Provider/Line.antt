-- ===== src/Provider/Line.antt =====
-- matchiter.go: candidateMatch.line.
use zoekt_archived.Prelude.{ℕ, ◌+◌, ◌-◌, ◌%◌, ◌^◌, List, length, get_or, ltb, leb, if◌then◌else◌}
use zoekt_archived.MatchTree.{Candidate}
use zoekt_archived.Provider.Search.{sort_search}

unfoldable pub line : Candidate → List ℕ → ℕ → ℕ × (ℕ × ℕ)
unfolding sort_search
line m newlines file_size =
    let idx = sort_search (length newlines) (λ n. leb m.byte_offset (get_or newlines n 0)) in
    let end = if ltb idx (length newlines) then get_or newlines idx 0 else file_size in
    let start = if ltb 0 idx then (get_or newlines (idx - 1) 0 + 1) % 2 ^ 32 else 0 in
    (idx + 1, (start, end))
