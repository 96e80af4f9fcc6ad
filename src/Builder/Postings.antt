-- ===== src/Builder/Postings.antt =====
-- indexbuilder.go: postingsBuilder and newSearchableString.
use zoekt_archived.Prelude.{
  ℕ, zero, suc, ◌+◌, ◌-◌, ◌%◌, ◌^◌, Bool, true, false, List, [], ◌∷◌, ◌++◌, Bytes, length, drop,
  ltb, ◌==◌, if◌then◌else◌,
}
use zoekt_archived.Bits.Utf8.{decode_rune}
use zoekt_archived.Bits.Ngrams.{Runes, runes_to_ngram}
use zoekt_archived.Bits.Deltas.{Varint, DocumentSection, delta_of, flatten_sections}
use zoekt_archived.Provider.Offset.{rune_offset_frequency}
use zoekt_archived.Builder.Map.{find, put}

pub record PostingsBuilder : Type 0 where
  pub postings : List (ℕ × Bytes)
  pub last_offsets : List (ℕ × ℕ)
  pub rune_offsets : List ℕ
  pub rune_count : ℕ
  pub is_plain_ascii : Bool
  pub end_runes : List ℕ
  pub end_byte : ℕ

unfoldable pub new_postings_builder : PostingsBuilder
new_postings_builder = record {
  postings = [];
  last_offsets = [];
  rune_offsets = [];
  rune_count = 0;
  is_plain_ascii = true;
  end_runes = [];
  end_byte = 0;
}

-- The inner loop: the boundaries that are left, and those in runes.
unfoldable pub take_boundaries : ℕ → ℕ → List ℕ → List ℕ → List ℕ × List ℕ
take_boundaries at rune [] runes = ([], runes)
take_boundaries at rune (b ∷ bs) runes =
    let rest = take_boundaries at rune bs (runes ++ rune ∷ []) in
    if b == at % 2 ^ 32 then rest else (b ∷ bs, runes)

-- The variables of the loop over the runes.
pub record RuneScan : Type 0 where
  pub builder : PostingsBuilder
  pub rune_gram : Runes
  pub rune_index : ℕ
  pub byte_count : ℕ
  pub byte_boundaries : List ℕ
  pub rune_boundaries : List ℕ

unfoldable pub shift_gram : Runes → ℕ → Runes
shift_gram (a, (b, c)) d = (b, (c, d))

module _ (v : Varint) where
  -- The end of a round: the n-gram at the last three runes.
  unfoldable pub post : PostingsBuilder → Runes → ℕ → PostingsBuilder
  unfolding runes_to_ngram find put
  post s gram new_off =
      let ng = runes_to_ngram gram in
      let last_off = find ng 0 s.last_offsets in
      record s {
        postings =
            put ng (find ng [] s.postings ++ v.put_uvarint (delta_of last_off new_off)) s.postings;
        last_offsets = put ng new_off s.last_offsets;
      }

  unfoldable pub sample_rune : PostingsBuilder → ℕ → ℕ → PostingsBuilder
  sample_rune s rune_index byte_count = record s {
    rune_offsets =
        if (s.rune_count + rune_index) % 2 ^ 32 % rune_offset_frequency == 0
        then s.rune_offsets ++ (s.end_byte + byte_count % 2 ^ 32) % 2 ^ 32 ∷ []
        else s.rune_offsets;
  }

  unfoldable pub scan_rune : ℕ × ℕ → RuneScan → RuneScan
  unfolding post sample_rune take_boundaries shift_gram
  scan_rune (c, sz) t =
      let s : PostingsBuilder = record t.builder {
        is_plain_ascii = if ltb 1 sz then false else t.builder.is_plain_ascii;
      } in
      let gram = shift_gram t.rune_gram c in
      let sampled = sample_rune s t.rune_index t.byte_count in
      let end_rune = s.rune_count in
      let boundaries =
        take_boundaries t.byte_count ((end_rune + t.rune_index) % 2 ^ 32) t.byte_boundaries
          t.rune_boundaries in
      record {
        builder =
            if ltb t.rune_index 2
            then sampled
            else post sampled gram ((end_rune + t.rune_index + (2 ^ 32 - 2)) % 2 ^ 32);
        rune_gram = gram;
        rune_index = (t.rune_index + 1) % 2 ^ 32;
        byte_count = t.byte_count + sz;
        byte_boundaries = boundaries.0;
        rune_boundaries = boundaries.1;
      }

  -- Each round takes a byte or more, so the length of the data is enough fuel.
  unfoldable pub rune_loop : ℕ → Bytes → RuneScan → RuneScan
  unfolding scan_rune decode_rune
  rune_loop fuel [] t = t
  rune_loop zero (b ∷ bs) t = t
  rune_loop (suc fuel) (b ∷ bs) t =
      let r = decode_rune (b ∷ bs) in rune_loop fuel (drop r.1 (b ∷ bs)) (scan_rune r t)

-- The pairs of the last loop; an odd number panics.
pub data Outcome (A : Type 0) : Type 0 where
  done : A → Outcome A
  failed : Outcome A
  panicked : Outcome A

unfoldable pub pair_runes : List ℕ → Outcome (List DocumentSection)
pair_runes [] = done []
pair_runes (a ∷ []) = panicked
pair_runes (a ∷ b ∷ runes) = elim (pair_runes runes) as (λ _. Outcome (List DocumentSection)) [
  | done secs ↦ done (record { start = a; end = b } ∷ secs)
  | failed ↦ failed
  | panicked ↦ panicked
]

-- The test behind the loop, on the first boundary that is left.
unfoldable pub is_behind : ℕ → List ℕ → Bool
is_behind at [] = false
is_behind at (b ∷ bs) = ltb b (at % 2 ^ 32)

-- newSearchableString: the builder after it, and the sections in runes. (The string is the data itself.)
pub record Indexed : Type 0 where
  pub builder : PostingsBuilder
  pub rune_sections : Outcome (List DocumentSection)

-- runeCount and, on success, endRunes and endByte.
unfoldable pub count_runes : RuneScan → PostingsBuilder
count_runes t = record t.builder { rune_count = (t.builder.rune_count + t.rune_index) % 2 ^ 32 }

unfoldable pub end_string : ℕ → PostingsBuilder → PostingsBuilder
end_string data_sz s = record s {
  end_runes = s.end_runes ++ s.rune_count ∷ [];
  end_byte = (s.end_byte + data_sz) % 2 ^ 32;
}

module _ (v : Varint) where
  -- What follows the loop.
  unfoldable pub finish_string : ℕ → RuneScan → Indexed
  unfolding is_behind take_boundaries pair_runes count_runes end_string
  finish_string data_sz t =
      let behind = is_behind t.byte_count t.byte_boundaries in
      let at_end = (t.builder.rune_count + t.rune_index) % 2 ^ 32 in
      record {
        builder = if behind then count_runes t else end_string data_sz (count_runes t);
        rune_sections =
            if behind
            then failed
            else pair_runes
                (take_boundaries t.byte_count at_end t.byte_boundaries t.rune_boundaries).1;
      }

  unfoldable pub start_scan : PostingsBuilder → List DocumentSection → RuneScan
  unfolding flatten_sections
  start_scan s secs = record {
    builder = s;
    rune_gram = (0, (0, 0));
    rune_index = 0;
    byte_count = 0;
    byte_boundaries = flatten_sections secs;
    rune_boundaries = [];
  }

  unfoldable pub new_searchable_string : PostingsBuilder → Bytes → List DocumentSection → Indexed
  unfolding rune_loop finish_string start_scan
  new_searchable_string s data' secs =
      finish_string (length data' % 2 ^ 32) (rune_loop v (length data') data' (start_scan s secs))
