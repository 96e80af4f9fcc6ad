-- ===== src/Provider/FillLines.antt =====
-- contentprovider.go: fillContentMatches never panics and loses no match.
use mathlib.Core.Path.{subst}
use zoekt_archived.Prelude.{
  ℕ, zero, suc, ◌+◌, ◌-◌, ◌^◌, ◌≤◌, ◌<◌, ◌≡◌, refl, ap, sym, ◌∙◌, true, false, ◌&&◌, List, [], ◌∷◌,
  ◌++◌, map, Option, none, some, Bytes, length, take, drop, All, leb, if◌then◌else◌, arith,
}
use zoekt_archived.MatchTree.{Candidate}
use zoekt_archived.Bits.Deltas.{prepend}
use zoekt_archived.Index.Documents.{new_lines_indices}
use zoekt_archived.Provider.Line.{line}
use zoekt_archived.Provider.LineLaws.{IsLine, IsLineAt, line-IsLine}
use zoekt_archived.Provider.Score.{LineMatch}
use zoekt_archived.Provider.Fill.{
  take_line, last_end, extend_line, fragment, line_match, fill_loop, fill_content_matches,
}
use zoekt_archived.Provider.LineEnds.{extend_line_lem, extend_line_least}
use zoekt_archived.Provider.FillLaws.{
  last_end_le, IsInOrder, IsSplit, take_line-IsSplit, last_end_lem, EndsBy, fragments-IsFragment,
  IsLineMatch, all_ranges, range_of, range_of_fragment,
}

map-append : {A B : Type 0} (f : A → B) (xs ys : List A) → map f (xs ++ ys) ≡ map f xs ++ map f ys
map-append f [] ys = refl
map-append f (x ∷ xs) ys = ap (λ zs. f x ∷ zs) (map-append f xs ys)

ranges_of_fragments :
    (start : ℕ) (ms : List Candidate)
    → map range_of_fragment (map (fragment start) ms) ≡ map range_of ms
unfolding range_of range_of_fragment
ranges_of_fragments start [] = refl
ranges_of_fragments start (m ∷ ms) = ap (λ rs. range_of m ∷ rs) (ranges_of_fragments start ms)

All-map {ℓ} :
    {A B : Type 0} (P : B → Type ℓ) (f : A → B) (xs : List A)
    → All (λ x. P (f x)) xs
    → All P (map f xs)
All-map P f [] all = tt
All-map P f (x ∷ xs) (a, all) = (a, All-map P f xs all)

All-map-inv {ℓ} :
    {A B : Type 0} (P : B → Type ℓ) (f : A → B) (xs : List A)
    → All P (map f xs)
    → All (λ x. P (f x)) xs
All-map-inv P f [] all = tt
All-map-inv P f (x ∷ xs) (a, all) = (a, All-map-inv P f xs all)

-- Each line match with those that follow it.
unfoldable pub IsLines : Bytes → List LineMatch → Type 0
IsLines data' [] = Unit
IsLines data' (l ∷ ls) = IsLineMatch data' l ls × IsLines data' ls

-- Line matches that hold exactly the given matches, in order.
unfoldable pub IsFilled : Bytes → List Candidate → Option (List LineMatch) → Type 0
unfolding all_ranges range_of IsLines
IsFilled data' ms o =
    (ls : List LineMatch) × ((o ≡ some ls) × (IsLines data' ls × (all_ranges ls ≡ map range_of ms)))

module _ (data' : Bytes) (fits : length data' < 2 ^ 32) where
  EndsBy-le :
      (e end : ℕ) (ms : List Candidate)
      → e ≤ end
      → All (EndsBy data' fits e) ms
      → All (EndsBy data' fits end) ms
  EndsBy-le e end [] le all = tt
  EndsBy-le e end (m ∷ ms) le (a, all) = (omega arith, EndsBy-le e end ms le all)

  head-inside :
      (lo : ℕ) (m : Candidate) (ms : List Candidate)
      → IsInOrder data' lo (m ∷ ms)
      → m.byte_offset + m.byte_match_sz ≤ length data'
  unfolding IsInOrder
  head-inside lo m ms (a, (b, o)) = b

  line_match-IsFilled :
      (num start end lo : ℕ) (m : Candidate) (ms rest : List Candidate)
      (later : Option (List LineMatch))
      → IsLine data' m.byte_offset num start end
      → IsInOrder data' lo (m ∷ ms)
      → All (λ c. c.byte_offset ≤ end) (m ∷ ms)
      → All (λ c. end < c.byte_offset) rest
      → IsFilled data' rest later
      → IsFilled data' ((m ∷ ms) ++ rest) (line_match data' (num, (start, end)) (m ∷ ms) later)
  unfolding line_match IsFilled all_ranges IsInOrder IsLines range_of range_of_fragment
  line_match-IsFilled num start end lo m ms rest later is_line (le, (inside, o)) on behind
        (ls, (run, (good, same))) =
      let order : IsInOrder data' m.byte_offset (m ∷ ms) = (omega arith, (inside, o)) in
      let (ends, (_, bound)) =
        last_end_lem data' fits 0 m.byte_offset (m ∷ ms) order (omega arith) (omega arith) in
      let e = extend_line (length data') data' (last_end 0 (m ∷ ms)) end in
      let ((short, at_end), (ge, passed)) =
        extend_line_lem (length data') data' (last_end 0 (m ∷ ms)) end
          (is_line.end_le, is_line.at_end) (omega arith) bound in
      let result : LineMatch = record {
        line = take (e - start) (drop start data');
        line_start = start;
        line_end = e;
        line_number = num;
        file_name = false;
        score = 0;
        fragments = map (fragment start) (m ∷ ms);
      } in
      let inner : (leb start e && leb e (length data')) ≡ true = ground (arith, ge, short) in
      (
        result ∷ ls,
        (
          ap (λ b. if b then prepend result later else none) inner ∙ ap (prepend result) run,
          (
            (
              record {
                first_offset = m.byte_offset;
                first_size = m.byte_match_sz;
                more = map range_of ms;
                is_first = ranges_of_fragments start (m ∷ ms);
                on_line = All-map (λ f. f.offset ≤ end) (fragment start) (m ∷ ms) on;
                behind =
                    subst (All (λ r. end < r.0)) (sym same)
                      (All-map (λ r. end < r.0) range_of rest behind);
                least_end = λ p is_end le_p covers.
                    extend_line_least (length data') data' (last_end 0 (m ∷ ms)) end p is_end le_p (
                      last_end_le data' fits 0 p (m ∷ ms) is_end.0 (omega arith) (
                        All-map-inv (λ f. f.offset + f.match_length ≤ p) (fragment start) (m ∷ ms)
                          covers));
                first_end = end;
                is_line = is_line;
                first_end_le = ge;
                end_le = short;
                at_end = at_end;
                is_text = refl;
                have_places =
                    fragments-IsFragment data' fits start e m.byte_offset (m ∷ ms) (omega arith)
                      order (EndsBy-le (last_end 0 (m ∷ ms)) e (m ∷ ms) passed ends);
              },
              good,
            ),
            ap (λ rs. rs ++ all_ranges ls) (ranges_of_fragments start (m ∷ ms))
                ∙ ap (λ rs. map range_of (m ∷ ms) ++ rs) same
                ∙ sym (map-append range_of (m ∷ ms) rest),
          ),
        ),
      )

  -- One round, with the matches that start on the line and those behind them.
  round-IsFilled :
      (found : ℕ × (ℕ × ℕ)) (lo : ℕ) (m : Candidate) (ms : List Candidate)
      (fill : List Candidate → Option (List LineMatch))
      → IsLineAt data' m.byte_offset found
      → IsInOrder data' lo (m ∷ ms)
      → ((lo' : ℕ) (rest : List Candidate)
          → length rest ≤ length ms
          → IsInOrder data' lo' rest
          → IsFilled data' rest (fill rest))
      → IsFilled data' (m ∷ ms) (
          line_match data' found
            (take_line found.1.1 (m ∷ ms)).0
            (fill (take_line found.1.1 (m ∷ ms)).1))
  unfolding take_line IsInOrder IsSplit
  round-IsFilled (num, (start, end)) lo m ms fill is_line (le, (inside, o)) later =
      let r = take_line end ms in
      let ((front, (on, behind)), ((lo', back), (same, short))) =
        take_line-IsSplit data' end (m.byte_offset + m.byte_match_sz) ms o in
      let here : leb m.byte_offset end ≡ true =
        let le_end = is_line.le_end in ground (arith, le_end) in
      let taken : List Candidate × List Candidate = (m ∷ r.0, r.1) in
      let left : List Candidate × List Candidate = ([], m ∷ ms) in
      let split = ap (λ b. if b then taken else left) here in
      subst (λ t. IsFilled data' (m ∷ ms) (line_match data' (num, (start, end)) t.0 (fill t.1)))
        (sym split)
        (subst
          (λ all.
            IsFilled data' (m ∷ all) (line_match data' (num, (start, end)) (m ∷ r.0) (fill r.1)))
          same
          (line_match-IsFilled num start end lo m r.0 r.1 (fill r.1) is_line (le, (inside, front))
            (is_line.le_end, on) behind (later lo' r.1 short back)))

  fill_loop-IsFilled :
      (fuel lo : ℕ) (ms : List Candidate)
      → length ms ≤ fuel
      → IsInOrder data' lo ms
      → IsFilled data' ms (fill_loop data' fuel (new_lines_indices data') (length data') ms)
  unfolding fill_loop IsFilled all_ranges
  fill_loop-IsFilled fuel lo [] le o = ([], (refl, (tt, refl)))
  fill_loop-IsFilled zero lo (m ∷ ms) le o = absurd (omega arith)
  fill_loop-IsFilled (suc fuel) lo (m ∷ ms) le o =
      let inside = head-inside lo m ms o in
      round-IsFilled (line m (new_lines_indices data') (length data')) lo m ms
        (fill_loop data' fuel (new_lines_indices data') (length data'))
        (line-IsLine m data' fits (omega (arith, inside))) o
        (λ lo' rest short o'. fill_loop-IsFilled fuel lo' rest (omega arith) o')

-- On the newlines and the size of a document below 4 GiB, fillContentMatches does not panic on matches in order
-- that do not overlap and lie inside the document. Its line matches hold exactly these matches, in order, each at
-- its place in the text of its line match: those that start on one line stand in one line match, with the number
-- and the start of that line, which ends at the first end of a line that is not before the end of the line or of
-- a match.
pub fill_content_matches-IsFilled :
    (data' : Bytes) (ms : List Candidate)
    → length data' < 2 ^ 32
    → IsInOrder data' 0 ms
    → IsFilled data' ms (fill_content_matches data' (new_lines_indices data') (length data') ms)
unfolding fill_content_matches
fill_content_matches-IsFilled data' ms fits o =
    fill_loop-IsFilled data' fits (length ms) 0 ms (omega arith) o
