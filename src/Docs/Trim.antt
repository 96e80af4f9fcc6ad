-- ===== src/Docs/Trim.antt =====
-- matchiter.go: trimBySectionMatchIter, the candidates of an iterator that lie in a symbol's section.
use zoekt_archived.Prelude.{
  ℕ, zero, suc, ◌+◌, ◌%◌, ◌^◌, List, [], ◌∷◌, length, ltb, leb, if◌then◌else◌,
}
use zoekt_archived.MatchTree.{Candidate, MatchIterator}
use zoekt_archived.Bits.Deltas.{DocumentSection}
use zoekt_archived.Docs.NgramIter.{file_start}

-- trimBySectionMatchIter; `inner` is the embedded matchIterator.
pub record TrimIter (I : Type 0) : Type 0 where
  pub inner : I
  pub pattern_size : ℕ
  pub file_end_runes : List ℕ
  pub doc_id : ℕ
  pub sections : List DocumentSection

-- The variables start and end of the loop.
abbrev pub place : ℕ → Candidate → ℕ
place start m = (start + m.rune_offset) % 2 ^ 32

abbrev pub place_end : ℕ → ℕ → Candidate → ℕ
place_end start size m = (place start m + size) % 2 ^ 32

-- for len(i.sections) > 0 && i.sections[0].Start < fileStart { i.sections = i.sections[1:] }
unfoldable pub skip_sections : ℕ → List DocumentSection → List DocumentSection
skip_sections start [] = []
skip_sections start (s ∷ secs) =
    let rest = skip_sections start secs in if ltb s.start start then rest else s ∷ secs

module _ (start size : ℕ) where
  -- The loop of candidates. A round drops a section or a candidate, so both lengths are enough fuel.
  unfoldable pub trim_loop :
      ℕ → List DocumentSection → List Candidate → List Candidate × List DocumentSection
  trim_loop zero secs ms = ([], secs)
  trim_loop (suc fuel) [] ms = ([], [])
  trim_loop (suc fuel) (s ∷ secs) [] = ([], s ∷ secs)
  trim_loop (suc fuel) (s ∷ secs) (m ∷ ms) =
      let next_section = trim_loop fuel secs (m ∷ ms) in
      let next_match = trim_loop fuel (s ∷ secs) ms in
      if leb s.end (place start m)
      then next_section
      else if ltb (place start m) s.start
      then next_match
      else if leb (place_end start size m) s.end
      then (m ∷ next_match.0, next_match.1)
      else next_match

module _ {I : Type 0} (it : MatchIterator I) where
  unfoldable pub prepare_trim : ℕ → TrimIter I → TrimIter I
  unfolding skip_sections
  prepare_trim d t = record t {
    inner = it.prepare d t.inner;
    doc_id = d;
    sections = skip_sections (file_start t.file_end_runes d) t.sections;
  }

  unfoldable pub candidates_of_trim : TrimIter I → List Candidate × TrimIter I
  unfolding trim_loop
  candidates_of_trim t =
      let (ms, inner) = it.candidates t.inner in
      let (trimmed, sections) =
        trim_loop (file_start t.file_end_runes t.doc_id) t.pattern_size
          (length t.sections + length ms) t.sections ms in
      (trimmed, record t { inner = inner; sections = sections })

  abbrev pub trim_iterator : MatchIterator (TrimIter I)
  trim_iterator = record {
    next_doc = λ t. ((it.next_doc t.inner).0, record t { inner = (it.next_doc t.inner).1 });
    prepare = prepare_trim;
    candidates = candidates_of_trim;
  }
