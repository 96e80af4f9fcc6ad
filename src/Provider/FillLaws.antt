-- ===== src/Provider/FillLaws.antt =====
-- contentprovider.go: fillContentMatches puts every match on its line.
use zoekt_archived.Prelude.{
  ℕ, ◌+◌, ◌-◌, ◌^◌, ◌≤◌, ◌<◌, ◌≡◌, refl, ap, ◌⊎◌, List, [], ◌∷◌, ◌++◌, map, Bytes, length, take,
  drop, get_or, All, leb, if-intro, arith,
}
use zoekt_archived.MatchTree.{Candidate}
use zoekt_archived.Eval.Gather.{match_end}
use zoekt_archived.Provider.LineLaws.{IsLine}
use zoekt_archived.Provider.Score.{Fragment, LineMatch}
use zoekt_archived.Provider.Fill.{take_line, last_end, fragment}
use zoekt_archived.Provider.LineEnds.{IsEnd}

unfoldable pub range_of : Candidate → ℕ × ℕ
range_of m = (m.byte_offset, m.byte_match_sz)

unfoldable pub range_of_fragment : Fragment → ℕ × ℕ
range_of_fragment f = (f.offset, f.match_length)

-- The places and sizes of the fragments of all lines, in order.
unfoldable pub all_ranges : List LineMatch → List (ℕ × ℕ)
unfolding range_of_fragment
all_ranges [] = []
all_ranges (l ∷ ls) = map range_of_fragment l.fragments ++ all_ranges ls

module _ (data' : Bytes) where
  -- Matches in order from lo on, none of which overlaps another or the end of the document.
  unfoldable pub IsInOrder : ℕ → List Candidate → Type 0
  IsInOrder lo [] = Unit
  IsInOrder lo (m ∷ ms) =
      (lo ≤ m.byte_offset)
      × ((m.byte_offset + m.byte_match_sz ≤ length data')
          × IsInOrder (m.byte_offset + m.byte_match_sz) ms)

  -- A fragment of a line that starts and ends there: it has its place in the line, and ends in it.
  abbrev pub IsFragment : ℕ → ℕ → Fragment → Type 0
  IsFragment start end f = (start + f.line_offset ≡ f.offset) × (f.offset + f.match_length ≤ end)

  -- A line match, with those that follow it: its number and start are those of the line that holds its first
  -- fragment; all its fragments start on that line, and those of the later line matches behind it; it ends at the
  -- first newline, or the end of the document, that is not before the line's end and that of a fragment; it has the
  -- bytes in between, and its fragments have their place in it.
  pub record IsLineMatch (l : LineMatch) (later : List LineMatch) : Type 0 where
    pub first_offset : ℕ
    pub first_size : ℕ
    pub more : List (ℕ × ℕ)
    pub first_end : ℕ
    pub is_first : map range_of_fragment l.fragments ≡ (first_offset, first_size) ∷ more
    pub on_line : All (λ f. f.offset ≤ first_end) l.fragments
    pub behind : All (λ r. first_end < r.0) (all_ranges later)
    pub least_end :
        (p : ℕ)
        → IsEnd data' p
        → first_end ≤ p
        → All (λ f. f.offset + f.match_length ≤ p) l.fragments
        → l.line_end ≤ p
    pub is_line : IsLine data' first_offset l.line_number l.line_start first_end
    pub first_end_le : first_end ≤ l.line_end
    pub end_le : l.line_end ≤ length data'
    pub at_end : (l.line_end ≡ length data') ⊎ (get_or data' l.line_end 0 ≡ 10)
    pub is_text : l.line ≡ take (l.line_end - l.line_start) (drop l.line_start data')
    pub have_places : All (IsFragment l.line_start l.line_end) l.fragments

  pub IsInOrder-from :
      (lo e : ℕ) (ms : List Candidate) → e < lo → IsInOrder lo ms → All (λ m. e < m.byte_offset) ms
  unfolding IsInOrder
  IsInOrder-from lo e [] lt o = tt
  IsInOrder-from lo e (m ∷ ms) lt (le, (inside, o)) =
      (omega arith, IsInOrder-from (m.byte_offset + m.byte_match_sz) e ms (omega arith) o)

  unfoldable pub IsSplit : ℕ → ℕ → List Candidate → List Candidate × List Candidate → Type 0
  IsSplit end lo ms r =
      (IsInOrder lo r.0 × (All (λ m. m.byte_offset ≤ end) r.0 × All (λ m. end < m.byte_offset) r.1))
      × (((lo' : ℕ) × IsInOrder lo' r.1) × ((r.0 ++ r.1 ≡ ms) × (length r.1 ≤ length ms)))

  pub take_line-IsSplit :
      (end lo : ℕ) (ms : List Candidate) → IsInOrder lo ms → IsSplit end lo ms (take_line end ms)
  unfolding take_line IsSplit IsInOrder
  take_line-IsSplit end lo [] o = ((tt, (tt, tt)), ((lo, tt), (refl, omega arith)))
  take_line-IsSplit end lo (m ∷ ms) (le, (inside, o)) =
      let ((a, (on, behind)), (b, (same, short))) =
        take_line-IsSplit end (m.byte_offset + m.byte_match_sz) ms o in
      if-intro (IsSplit end lo (m ∷ ms)) (leb m.byte_offset end)
        (m ∷ (take_line end ms).0, (take_line end ms).1) ([], m ∷ ms)
        (λ here. (
          ((le, (inside, a)), ((ground (arith, here), on), behind)),
          (b, (ap (λ xs. m ∷ xs) same, omega arith)),
        ))
        (λ there. (
          (
            tt,
            (
              tt,
              (
                ground (arith, there),
                IsInOrder-from (m.byte_offset + m.byte_match_sz) end ms (ground (arith, there)) o,
              ),
            ),
          ),
          ((lo, (le, (inside, o))), (refl, omega arith)),
        ))

  module _ (fits : length data' < 2 ^ 32) where
    abbrev pub EndsBy : ℕ → Candidate → Type 0
    EndsBy end m = m.byte_offset + m.byte_match_sz ≤ end

    pub last_end_lem :
        (e lo : ℕ) (ms : List Candidate)
        → IsInOrder lo ms
        → e ≤ lo
        → e ≤ length data'
        → All (EndsBy (last_end e ms)) ms × ((e ≤ last_end e ms) × (last_end e ms ≤ length data'))
    unfolding last_end IsInOrder
    last_end_lem e lo [] o le inside = (tt, (omega arith, inside))
    last_end_lem e lo (m ∷ ms) (a, (b, o)) le inside =
        let (all, (ge, bound)) =
          last_end_lem (match_end m) (m.byte_offset + m.byte_match_sz) ms o (omega arith)
            (omega arith) in
        ((omega (arith, ge), all), (omega (arith, ge), bound))

    pub last_end_le :
        (e p : ℕ) (ms : List Candidate)
        → p ≤ length data'
        → e ≤ p
        → All (EndsBy p) ms
        → last_end e ms ≤ p
    unfolding last_end
    last_end_le e p [] short le all = le
    last_end_le e p (m ∷ ms) short le (a, all) =
        last_end_le (match_end m) p ms short (omega arith) all

    pub fragments-IsFragment :
        (start end lo : ℕ) (ms : List Candidate)
        → start ≤ lo
        → IsInOrder lo ms
        → All (EndsBy end) ms
        → All (IsFragment start end) (map (fragment start) ms)
    unfolding IsInOrder
    fragments-IsFragment start end lo [] le o all = tt
    fragments-IsFragment start end lo (m ∷ ms) le (a, (b, o)) (e, all) = (
      (omega arith, e),
      fragments-IsFragment start end (m.byte_offset + m.byte_match_sz) ms (omega arith) o all,
    )
