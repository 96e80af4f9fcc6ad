-- ===== src/Docs/Sections.antt =====
-- matchiter.go: trimBySectionMatchIter keeps exactly the candidates inside one of its sections.
use zoekt_archived.Prelude.{ℕ, ◌≤◌, Bool, false, ◌&&◌, ◌||◌, List, [], ◌∷◌, ltb, leb, if◌then◌else◌}
use zoekt_archived.MatchTree.{Candidate}
use zoekt_archived.Bits.Deltas.{DocumentSection}
use zoekt_archived.Docs.Trim.{place, place_end}

-- Sections that follow one another from a place on.
unfoldable pub IsSections : ℕ → List DocumentSection → Type 0
IsSections lo [] = Unit
IsSections lo (s ∷ secs) = (lo ≤ s.start) × ((s.start ≤ s.end) × IsSections s.end secs)

-- Candidates in the order of their places.
unfoldable pub IsInOrder : ℕ → ℕ → List Candidate → Type 0
IsInOrder start lo [] = Unit
IsInOrder start lo (m ∷ ms) = (lo ≤ place start m) × IsInOrder start (place start m) ms

-- The candidate lies in one of the sections, from its place to its end.
unfoldable pub is_inside : ℕ → ℕ → List DocumentSection → Bool
is_inside a b [] = false
is_inside a b (s ∷ secs) = (leb s.start a && (ltb a s.end && leb b s.end)) || is_inside a b secs

unfoldable pub keep_inside : ℕ → ℕ → List DocumentSection → List Candidate → List Candidate
keep_inside start size secs [] = []
keep_inside start size secs (m ∷ ms) =
    let rest = keep_inside start size secs ms in
    if is_inside (place start m) (place_end start size m) secs then m ∷ rest else rest
