-- ===== src/Provider/Fill.antt =====
-- contentprovider.go: fillContentMatches.
use zoekt_archived.Prelude.{
  ℕ, zero, suc, ◌+◌, ◌-◌, false, ◌&&◌, List, [], ◌∷◌, map, Option, none, some, Bytes, length, take,
  drop, ltb, leb, ◌==◌, if◌then◌else◌,
}
use zoekt_archived.MatchTree.{Candidate}
use zoekt_archived.Bits.Deltas.{prepend}
use zoekt_archived.Eval.Gather.{match_end}
use zoekt_archived.Provider.Line.{line}
use zoekt_archived.Provider.Score.{Fragment, LineMatch}

-- bytes.IndexByte
abbrev pub shift : Option ℕ → Option ℕ
shift none = none
shift (some n) = some (suc n)

unfoldable pub index_byte : ℕ → Bytes → Option ℕ
index_byte c [] = none
index_byte c (x ∷ xs) = let later = shift (index_byte c xs) in if x == c then some 0 else later

-- The inner loop: the matches that start on the line, and the others.
unfoldable pub take_line : ℕ → List Candidate → List Candidate × List Candidate
take_line line_end [] = ([], [])
take_line line_end (m ∷ ms) =
    let (cands, rest) = take_line line_end ms in
    if leb m.byte_offset line_end then (m ∷ cands, rest) else ([], m ∷ ms)

-- endMatch after that loop.
unfoldable pub last_end : ℕ → List Candidate → ℕ
last_end end [] = end
last_end end (m ∷ ms) = last_end (match_end m) ms

-- The loop that takes lines until it passes the last match; each round takes a byte.
abbrev pub next_end : Bytes → ℕ → Option ℕ → ℕ
next_end data' line_end none = length data'
next_end data' line_end (some next) = line_end + (next + 1)

unfoldable pub extend_line : ℕ → Bytes → ℕ → ℕ → ℕ
unfolding index_byte
extend_line zero data' end_match line_end = line_end
extend_line (suc fuel) data' end_match line_end =
    let rest =
      extend_line fuel data' end_match
        (next_end data' line_end (index_byte 10 (drop (line_end + 1) data'))) in
    if ltb line_end (length data') && ltb line_end end_match then rest else line_end

abbrev pub fragment : ℕ → Candidate → Fragment
fragment line_start m = record {
  line_offset = m.byte_offset - line_start;
  offset = m.byte_offset;
  match_length = m.byte_match_sz;
}

-- One line, with the results for the matches behind it. `none` is a panic.
module _ (data' : Bytes) where
  unfoldable pub line_match :
      ℕ × (ℕ × ℕ) → List Candidate → Option (List LineMatch) → Option (List LineMatch)
  unfolding last_end extend_line
  line_match found [] later = none
  line_match (num, (line_start, line_end)) (m ∷ ms) later =
      let end = extend_line (length data') data' (last_end 0 (m ∷ ms)) line_end in
      let result : LineMatch = record {
        line = take (end - line_start) (drop line_start data');
        line_start = line_start;
        line_end = end;
        line_number = num;
        file_name = false;
        score = 0;
        fragments = map (fragment line_start) (m ∷ ms);
      } in
      if leb line_start end && leb end (length data') then prepend result later else none

  -- The fuel is the number of matches: each round takes one, or panics.
  unfoldable pub fill_loop : ℕ → List ℕ → ℕ → List Candidate → Option (List LineMatch)
  unfolding line take_line line_match
  fill_loop fuel newlines file_size [] = some []
  fill_loop zero newlines file_size (m ∷ ms) = none
  fill_loop (suc fuel) newlines file_size (m ∷ ms) =
      let found = line m newlines file_size in
      let (cands, rest) = take_line found.1.1 (m ∷ ms) in
      line_match found cands (fill_loop fuel newlines file_size rest)

  unfoldable pub fill_content_matches : List ℕ → ℕ → List Candidate → Option (List LineMatch)
  unfolding fill_loop
  fill_content_matches newlines file_size ms = fill_loop (length ms) newlines file_size ms
