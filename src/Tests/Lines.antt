-- ===== src/Tests/Lines.antt =====
-- contentprovider.go and candidateMatch.line on a small document.
use zoekt_archived.Prelude.{ℕ, ◌≡◌, refl, true, false, List, [], ◌∷◌, some, Bytes, arith}
use zoekt_archived.MatchTree.{Candidate}
use zoekt_archived.Bits.Deltas.{DocumentSection}
use zoekt_archived.Index.Documents.{new_lines_indices}
use zoekt_archived.Provider.Line.{line}
use zoekt_archived.Provider.LineLaws.{IsLineAt, line-IsLine}
use zoekt_archived.Provider.Score.{find_section, match_score, LineMatch}
use zoekt_archived.Provider.SectionLaws.{IsOrdered, first_holding, find_section_lem}
use zoekt_archived.Provider.Fill.{fill_content_matches}
use zoekt_archived.Provider.FillLaws.{IsInOrder}
use zoekt_archived.Provider.FillLines.{IsFilled, fill_content_matches-IsFilled}

-- Three lines, the last without a newline.
abbrev text : Bytes
text = 97 ∷ 98 ∷ 10 ∷ 99 ∷ 100 ∷ 10 ∷ 101 ∷ []

abbrev match_at : ℕ → ℕ → Candidate
match_at off sz = record {
  case_sensitive = true;
  file_name = false;
  substr_bytes = [];
  substr_lowered = [];
  file = 0;
  rune_offset = 0;
  byte_offset = off;
  byte_match_sz = sz;
}

second_line : line (match_at 4 1) (new_lines_indices text) 7 ≡ (2, (3, 5))
unfolding line new_lines_indices
second_line = refl

line-IsLine_example : IsLineAt text 4 (line (match_at 4 1) (new_lines_indices text) 7)
line-IsLine_example = line-IsLine (match_at 4 1) text (omega arith) (omega arith)

-- Two matches, the first of which goes over the end of its line.
abbrev matches_in_text : List Candidate
matches_in_text = match_at 1 3 ∷ match_at 6 1 ∷ []

fill_content_matches-IsFilled_example :
    IsFilled text matches_in_text
      (fill_content_matches text (new_lines_indices text) 7 matches_in_text)
unfolding IsInOrder
fill_content_matches-IsFilled_example =
    fill_content_matches-IsFilled text matches_in_text (omega arith)
      (omega arith, (omega arith, (omega arith, (omega arith, tt))))

abbrev symbols : List DocumentSection
symbols = record { start = 0; end = 2 } ∷ record { start = 3; end = 5 } ∷ []

find_section_lem_example : find_section symbols 4 1 ≡ some (record { start = 3; end = 5 })
unfolding IsOrdered first_holding
find_section_lem_example =
    find_section_lem symbols 4 1 (omega arith, (omega arith, (omega arith, (omega arith, tt))))
      (omega arith) (omega arith)

abbrev second : LineMatch
second = record {
  line = 99 ∷ 100 ∷ [];
  line_start = 3;
  line_end = 5;
  line_number = 2;
  file_name = false;
  score = 0;
  fragments = record { line_offset = 1; offset = 4; match_length = 1 } ∷ [];
}

-- A match at the end of a word and of a symbol.
end_of_symbol : match_score symbols second ≡ some 5550
unfolding match_score
end_of_symbol = refl
