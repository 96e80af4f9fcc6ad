-- ===== src/Docs/FileIndex.antt =====
-- matchiter.go: nextFileIndex.
use zoekt_archived.Prelude.{
  ℕ, zero, suc, ◌+◌, ◌*◌, ◌/◌, ◌%◌, ◌^◌, Bool, ◌&&◌, List, length, get_or, ltb, leb, if◌then◌else◌,
}

-- The tests `f < uint32(len(ends)) && ends[f] <= offset`, the second after the first.
abbrev pub is_ended : ℕ → List ℕ → ℕ → Bool
is_ended offset ends f = ltb f (length ends) && leb (get_or ends f 0) offset

module _ (offset : ℕ) (ends : List ℕ) where
  unfoldable pub index_loop : ℕ → ℕ → ℕ → ℕ
  index_loop zero f d = f
  index_loop (suc fuel) f d =
      let jump = index_loop fuel ((f + d) % 2 ^ 32) (d * 2 % 2 ^ 32) in
      let shrink = index_loop fuel f (d / 4 + 1) in
      let step = index_loop fuel ((f + 1) % 2 ^ 32) d in
      if is_ended offset ends f
      then if is_ended offset ends ((f + d) % 2 ^ 32)
        then jump
        else if ltb 1 d
        then shrink
        else step
      else f

-- 2 * (len(ends) - f) + d falls in every round.
unfoldable pub next_file_index : ℕ → ℕ → List ℕ → ℕ
unfolding index_loop
next_file_index offset f ends = index_loop offset ends (2 * length ends + 2) f 1
