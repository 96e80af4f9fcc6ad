-- ===== src/Tests/Postings.antt =====
-- bits.go, hititer.go and matchiter.go on small inputs, with base-128 varints.
use mathlib.Core.Path.{ap₂}
use zoekt_archived.Prelude.{
  leb, ℕ, zero, suc, ◌+◌, ◌-◌, ◌*◌, ◌/◌, ◌%◌, ◌≤◌, ◌<◌, ◌≡◌, refl, ap, ◌∙◌, false, List, [], ◌∷◌,
  ◌++◌, Option, none, some, Bytes, length, ltb, if◌then◌else◌, if-intro, arith, All, get_or, ◌&&◌,
}
use zoekt_archived.Bits.Deltas.{Varint, IsVarint, to_sized_deltas, from_sized_deltas, put_deltas}
use zoekt_archived.Hits.{in_memory, first_in_memory, next_in_memory, merging, next_compressed}
use zoekt_archived.Hits.Laws.{IsHitIterator}
use zoekt_archived.Hits.Memory.{IsAscending, has_posting, in_memory-IsHitIterator}
use zoekt_archived.Hits.Merging.{has_any, left_all, merging-IsHitIterator}
use zoekt_archived.Hits.Compressed.{posting_of, IsPast, next_compressed_lem}
use zoekt_archived.Hits.Distance.{DistanceIter, find_next, next_of_distance}
use zoekt_archived.Hits.AdjacentLaws.{has_hit, IsOk, StandsAtHit, find_next_lem}
use zoekt_archived.Docs.NgramIter.{NgramIter, candidates_of_ngram, hit_candidate}
use zoekt_archived.Docs.Candidates.{has_offset, IsHitOf, candidates_of_ngram_lem}
use zoekt_archived.Docs.FileIndex.{next_file_index}
use zoekt_archived.Docs.Gallop.{IsSorted, leading, next_file_index_lem}
use zoekt_archived.Bits.DeltasLaws.{from_sized_deltas-to_sized_deltas}

unfoldable pub put_on : ℕ → ℕ → Bytes
put_on zero n = n ∷ []
put_on (suc fuel) n =
    let rest = put_on fuel (n / 128) in if ltb n 128 then n ∷ [] else (128 + n % 128) ∷ rest

abbrev digit : ℕ → Option (ℕ × ℕ) → Option (ℕ × ℕ)
digit b none = none
digit b (some (x, m)) = some (x * 128 + (b - 128), m + 1)

unfoldable pub get_value : Bytes → Option (ℕ × ℕ)
get_value [] = some (0, 0)
get_value (b ∷ bs) = let rest = digit b (get_value bs) in if ltb b 128 then some (b, 1) else rest

abbrev pub base_128 : Varint
base_128 = record { put_uvarint = λ n. put_on n n; uvarint = get_value }

put_on_size : (fuel n : ℕ) → 0 < length (put_on fuel n)
unfolding put_on
put_on_size zero n = omega arith
put_on_size (suc fuel) n = ground arith

get_value-put_on :
    (fuel n : ℕ) (rest : Bytes)
    → n ≤ fuel
    → get_value (put_on fuel n ++ rest) ≡ some (n, length (put_on fuel n))
unfolding get_value put_on
get_value-put_on zero n rest le = ground arith
get_value-put_on (suc fuel) n rest le =
    let size = put_on fuel (n / 128) in
    if-intro (λ (bs : Bytes). get_value (bs ++ rest) ≡ some (n, length bs)) (ltb n 128) (n ∷ [])
      ((128 + n % 128) ∷ size) (λ lt. ground arith)
      (λ ge.
        let later = get_value-put_on fuel (n / 128) rest (ground arith) in
        let lead = 128 + n % 128 in
        let big : ltb lead 128 ≡ false = ground arith in
        let whole : n / 128 * 128 + (lead - 128) ≡ n = omega arith in
        let count : length size + 1 ≡ suc (length size) = omega arith in
        ap (λ t. if t then some (lead, 1) else digit lead (get_value (size ++ rest))) big
        ∙ ap (digit lead) later
        ∙ ap₂ (λ x m. some (x, m)) whole count)

pub base_128-IsVarint : IsVarint base_128
base_128-IsVarint = record {
  put_size = λ n. put_on_size n n;
  uvarint-put = λ n rest lt. get_value-put_on n n rest (omega arith);
}

-- Offsets of two bytes, and one that wraps around.
deltas_test :
    to_sized_deltas base_128 (3 ∷ 300 ∷ 7 ∷ []) ≡ 3 ∷ 3 ∷ 169 ∷ 2 ∷ 219 ∷ 253 ∷ 255 ∷ 255 ∷ 15 ∷ []
unfolding to_sized_deltas put_on
deltas_test = refl

abbrev offsets : List ℕ
offsets = 3 ∷ 300 ∷ 7 ∷ []

from_sized_deltas-to_sized_deltas_example :
    from_sized_deltas base_128 (to_sized_deltas base_128 offsets) ≡ some offsets
from_sized_deltas-to_sized_deltas_example =
    from_sized_deltas-to_sized_deltas base_128 base_128-IsVarint offsets
      (omega arith, (omega arith, (omega arith, tt))) (omega arith)

-- Two lists of postings, merged.
merging-IsHitIterator_example :
    IsHitIterator (merging in_memory) (All (IsAscending 0)) (has_any has_posting) (left_all length)
merging-IsHitIterator_example =
    merging-IsHitIterator in_memory (IsAscending 0) has_posting length in_memory-IsHitIterator

-- A compressed list of postings.
abbrev postings : List ℕ
postings = 3 ∷ 5 ∷ 300 ∷ []

next_compressed_lem_example :
    (rest : List ℕ) × ((next_compressed base_128 7 (posting_of base_128 postings)
        ≡ some (posting_of base_128 rest))
      × IsPast 7 postings rest)
next_compressed_lem_example =
    next_compressed_lem base_128 base_128-IsVarint 7 postings (omega arith)
      (omega arith, (omega arith, (omega arith, tt)))

-- The iterator stays at a hit within the limit, if it gets to the last one by skipping.
stale_test :
    next_compressed base_128 7 (posting_of base_128 (3 ∷ 5 ∷ []))
    ≡ some (record { blob = []; first_hit = 5 })
unfolding next_compressed posting_of put_deltas get_value put_on
stale_test = refl

-- Hits two apart.
abbrev apart : DistanceIter (List ℕ) (List ℕ)
apart = record { started = false; distance = 2; i1 = 1 ∷ 4 ∷ 9 ∷ []; i2 = 5 ∷ 6 ∷ 11 ∷ [] }

apart-IsOk : IsOk in_memory-IsHitIterator in_memory-IsHitIterator apart
unfolding IsAscending has_posting
apart-IsOk = (
  (
    (omega arith, (omega arith, (omega arith, (omega arith, (omega arith, (omega arith, tt)))))),
    (omega arith, (omega arith, (omega arith, (omega arith, (omega arith, (omega arith, tt)))))),
  ),
  λ p h. ground arith,
)

find_next_lem_example :
    (j : DistanceIter (List ℕ) (List ℕ)) × ((find_next in_memory in_memory length length apart
        ≡ some j)
      × (((p : ℕ) → has_hit has_posting has_posting j p ≡ has_hit has_posting has_posting apart p)
          × StandsAtHit in_memory-IsHitIterator in_memory-IsHitIterator j))
find_next_lem_example =
    find_next_lem in_memory-IsHitIterator in_memory-IsHitIterator apart apart-IsOk

next_test :
    next_of_distance in_memory in_memory length length 4 apart
    ≡ some (record { started = false; distance = 2; i1 = 9 ∷ []; i2 = 11 ∷ [] })
unfolding next_of_distance first_in_memory next_in_memory
next_test = refl

abbrev pub ends : List ℕ
ends = 10 ∷ 20 ∷ 30 ∷ 30 ∷ 40 ∷ []

All-get : (x : ℕ) (xs : List ℕ) (j : ℕ) → All (λ y. x ≤ y) xs → j < length xs → x ≤ get_or xs j 0
All-get x [] j all lt = absurd (omega arith)
All-get x (y ∷ ys) zero (le, all) lt = le
All-get x (y ∷ ys) (suc j) (le, all) lt = All-get x ys j all (omega arith)

IsSorted-cons : (x : ℕ) (xs : List ℕ) → All (λ y. x ≤ y) xs → IsSorted xs → IsSorted (x ∷ xs)
IsSorted-cons x xs all s zero zero le lt = omega arith
IsSorted-cons x xs all s zero (suc j) le lt = All-get x xs j all (omega arith)
IsSorted-cons x xs all s (suc i) zero le lt = absurd (omega arith)
IsSorted-cons x xs all s (suc i) (suc j) le lt = s i j (omega arith) (omega arith)

pub ends-IsSorted : IsSorted ends
ends-IsSorted =
    IsSorted-cons 10 (20 ∷ 30 ∷ 30 ∷ 40 ∷ [])
      (omega arith, (omega arith, (omega arith, (omega arith, tt))))
      (IsSorted-cons 20 (30 ∷ 30 ∷ 40 ∷ []) (omega arith, (omega arith, (omega arith, tt)))
        (IsSorted-cons 30 (30 ∷ 40 ∷ []) (omega arith, (omega arith, tt))
          (IsSorted-cons 30 (40 ∷ []) (omega arith, tt)
            (IsSorted-cons 40 [] tt (λ i j le lt. absurd (omega arith))))))

next_file_index_lem_example : next_file_index 30 1 ends ≡ 1 + leading 30 (20 ∷ 30 ∷ 30 ∷ 40 ∷ [])
next_file_index_lem_example =
    next_file_index_lem 30 ends 1 ends-IsSorted (omega arith) (omega arith)

index_test : next_file_index 30 1 ends ≡ 4
unfolding next_file_index
index_test = refl

-- Hits of an n-gram that stands two places into a pattern of seven, in three files.
abbrev files : NgramIter (List ℕ)
files = record {
  left_pad = 2;
  right_pad = 5;
  iter = 1 ∷ 12 ∷ 16 ∷ 25 ∷ [];
  ends = 10 ∷ 20 ∷ 30 ∷ [];
  file_idx = 1;
}

files_test :
    candidates_of_ngram in_memory length files
    ≡ (hit_candidate 1 0 ∷ [], record files { iter = 25 ∷ [] })
unfolding candidates_of_ngram first_in_memory next_in_memory
files_test = refl

files-Ok : IsAscending 0 files.iter
unfolding IsAscending
files-Ok = (
  omega arith,
  (
    omega arith,
    (omega arith, (omega arith, (omega arith, (omega arith, (omega arith, (omega arith, tt)))))),
  ),
)

candidates_of_ngram_lem_example :
    ((p : ℕ)
      → 12 ≤ p
      → p < 20
      → has_offset (candidates_of_ngram in_memory length files).0 (p - 10 - 2)
        ≡ (has_posting files.iter p && leb (p + 5) 20))
    × All
        (IsHitOf in_memory-IsHitIterator files files.iter)
        (candidates_of_ngram in_memory length files).0
candidates_of_ngram_lem_example =
    candidates_of_ngram_lem in_memory-IsHitIterator files files-Ok (omega arith) (omega arith)
      (omega arith)
