-- ===== src/Docs/NgramIter.antt =====
-- matchiter.go: ngramDocIterator, over a hit iterator whose `first` has no effect.
use zoekt_archived.Prelude.{
  ℕ, zero, suc, ◌+◌, ◌-◌, ◌%◌, ◌^◌, false, ◌||◌, List, [], ◌∷◌, length, get_or, ltb, leb, ◌==◌,
  if◌then◌else◌,
}
use zoekt_archived.MatchTree.{Candidate, MatchIterator, max_u32}
use zoekt_archived.Hits.{HitIterator}
use zoekt_archived.Docs.FileIndex.{next_file_index}

-- ngramDocIterator, without matchCount, which only its statistics read.
pub record NgramIter (S : Type 0) : Type 0 where
  pub left_pad : ℕ
  pub right_pad : ℕ
  pub iter : S
  pub ends : List ℕ
  pub file_idx : ℕ

-- Where the file starts and ends.
abbrev pub file_start : List ℕ → ℕ → ℕ
file_start ends zero = 0
file_start ends (suc f) = get_or ends f 0

-- &candidateMatch{file: ..., runeOffset: ...}
abbrev pub hit_candidate : ℕ → ℕ → Candidate
hit_candidate file offset = record {
  case_sensitive = false;
  file_name = false;
  substr_bytes = [];
  substr_lowered = [];
  file = file;
  rune_offset = offset;
  byte_offset = 0;
  byte_match_sz = 0;
}

module _ {S : Type 0} (it : HitIterator S) (left : S → ℕ) where
  -- The loop of candidates; every round but the last passes a hit, so `left` is enough fuel.
  unfoldable pub collect : ℕ → NgramIter S → S → List Candidate × S
  collect zero i s = ([], s)
  collect (suc fuel) i s =
      let start = file_start i.ends i.file_idx in
      let end = get_or i.ends i.file_idx 0 in
      let p1 = it.first s in
      let (rest, last) = collect fuel i (it.next p1 s) in
      let offset = (p1 + (2 ^ 32 - start) + (2 ^ 32 - i.left_pad)) % 2 ^ 32 in
      if (p1 == max_u32) || leb end p1
      then ([], s)
      else if ltb p1 ((i.left_pad + start) % 2 ^ 32) || ltb end ((p1 + i.right_pad) % 2 ^ 32)
      then (rest, last)
      else (hit_candidate i.file_idx offset ∷ rest, last)

  unfoldable pub candidates_of_ngram : NgramIter S → List Candidate × NgramIter S
  unfolding collect
  candidates_of_ngram i =
      let (found, last) = collect (suc (left i.iter)) i i.iter in
      if leb (length i.ends) i.file_idx then ([], i) else (found, record i { iter = last })

  unfoldable pub next_doc_of_ngram : NgramIter S → ℕ × NgramIter S
  unfolding next_file_index
  next_doc_of_ngram i =
      let f = next_file_index (it.first i.iter) i.file_idx i.ends in
      if leb (length i.ends) f
      then (max_u32, record i { file_idx = f })
      else (f, record i { file_idx = f })

  -- i.ends[nextDoc-1] panics past the ends, which Search does not ask for; here it is 0.
  unfoldable pub prepare_ngram : ℕ → NgramIter S → NgramIter S
  prepare_ngram d i =
      let start = file_start i.ends d in
      let skipped = record i {
        iter = it.next ((start + i.left_pad + (2 ^ 32 - 1)) % 2 ^ 32) i.iter;
        file_idx = d;
      } in
      if ltb 0 start then skipped else record i { file_idx = d }

  abbrev pub ngram_iterator : MatchIterator (NgramIter S)
  ngram_iterator = record {
    next_doc = next_doc_of_ngram;
    prepare = prepare_ngram;
    candidates = candidates_of_ngram;
  }
