-- ===== src/Builder/SampleLaws.antt =====
-- indexbuilder.go: the samples of rune offsets.
use mathlib.Core.Path.{subst}
use zoekt_archived.Prelude.{
  ℕ, zero, suc, ◌+◌, ◌-◌, ◌*◌, ◌%◌, ◌^◌, ◌≤◌, ◌<◌, ◌≡◌, refl, ap, sym, ◌∙◌, inl, inr, List, [], ◌∷◌,
  ◌++◌, Bytes, length, length-append, length-drop, drop, get_or, get_or-append,
  get_or-append_length, ◌==◌, if◌then◌else◌, if-intro, Bool-cases, arith,
}
use zoekt_archived.Bits.Utf8.{decode_rune}
use zoekt_archived.Bits.RuneSize.{decode_rune-size}
use zoekt_archived.Bits.Deltas.{Varint}
use zoekt_archived.Provider.OffsetLaws.{bytes_of_runes}
use zoekt_archived.Builder.Postings.{RuneScan, scan_rune, rune_loop}

-- The samples up to rune n hold the positions of the runes at multiples of the frequency.
pub record IsSampledTo (pos : ℕ → ℕ) (sample : List ℕ) (n : ℕ) : Type 0 where
  pub right : (k : ℕ) → k < length sample → get_or sample k 0 ≡ pos (k * 100)
  pub enough : n ≤ 100 * length sample
  pub few : 100 * length sample < n + 100

sample_step :
    (pos : ℕ → ℕ) (sample : List ℕ) (n : ℕ)
    → IsSampledTo pos sample n
    → IsSampledTo pos (if n % 100 == 0 then sample ++ pos n ∷ [] else sample) (n + 1)
sample_step pos sample n old =
    let sum = length-append sample (pos n ∷ []) in
    let enough = old.enough in
    let few = old.few in
    if-intro (λ xs. IsSampledTo pos xs (n + 1)) (n % 100 == 0) (sample ++ pos n ∷ []) sample
      (λ due.
        let count : n ≡ length sample * 100 = ground (arith, enough, few) in
        record {
          right = λ k lt. elim (Bool-cases (k == length sample)) [
            | inl last ↦
                let place : k ≡ length sample = ground arith in
                ap (λ j. get_or (sample ++ pos n ∷ []) j 0) place
                ∙ get_or-append_length sample [] (pos n) 0
                ∙ ap pos count
                ∙ ap (λ j. pos (j * 100)) (sym place)
            | inr earlier ↦
                let inside : k < length sample = ground (arith, sum) in
                get_or-append sample (pos n ∷ []) k 0 inside ∙ old.right k inside
          ];
          enough = omega (arith, sum, count);
          few = omega (arith, sum, count);
        })
      (λ not_due. record {
        right = old.right;
        enough = ground (arith, enough, few);
        few = omega arith;
      })

pub bytes_of_runes_nil : (n : ℕ) → bytes_of_runes n [] ≡ 0
unfolding bytes_of_runes
bytes_of_runes_nil zero = refl
bytes_of_runes_nil (suc n) = omega (arith, bytes_of_runes_nil n)

-- What the loop leaves, where a builder stood at R runes and E bytes.
pub record IsScanned (pos : ℕ → ℕ) (text : Bytes) (t u : RuneScan) : Type 0 where
  pub same_count : u.builder.rune_count ≡ t.builder.rune_count
  pub same_byte : u.builder.end_byte ≡ t.builder.end_byte
  pub same_ends : u.builder.end_runes ≡ t.builder.end_runes
  pub sampled : IsSampledTo pos u.builder.rune_offsets (t.builder.rune_count + u.rune_index)
  pub all_bytes : u.byte_count ≡ t.byte_count + length text
  pub all_runes : bytes_of_runes (u.rune_index - t.rune_index) text ≡ length text
  pub runes_within : (n : ℕ) → n < u.rune_index - t.rune_index → bytes_of_runes n text < length text
  pub index_le : t.rune_index ≤ u.rune_index
  pub le_index : u.rune_index ≤ t.rune_index + length text

runes_within_step :
    (c : ℕ) (cs : Bytes) (bound : ℕ)
    → ((n : ℕ)
        → n < bound
        → bytes_of_runes n (drop (decode_rune (c ∷ cs)).1 (c ∷ cs))
          < length (drop (decode_rune (c ∷ cs)).1 (c ∷ cs)))
    → (n : ℕ) → n < suc bound
    → bytes_of_runes n (c ∷ cs) < length (c ∷ cs)
unfolding bytes_of_runes
runes_within_step c cs bound later zero lt = omega arith
runes_within_step c cs bound later (suc n) lt =
    let below = later n (omega arith) in
    omega (arith, below, length-drop (decode_rune (c ∷ cs)).1 (c ∷ cs), (decode_rune-size c cs).1)

module _ (v : Varint) where
  scan_rune_fields :
      (c sz : ℕ) (t : RuneScan)
      → ((scan_rune v (c, sz) t).builder.rune_count ≡ t.builder.rune_count)
        × (((scan_rune v (c, sz) t).builder.end_byte ≡ t.builder.end_byte)
            × (((scan_rune v (c, sz) t).builder.end_runes ≡ t.builder.end_runes)
                × ((scan_rune v (c, sz) t).builder.rune_offsets ≡ (
                    if (t.builder.rune_count + t.rune_index) % 2 ^ 32 % 100 == 0
                    then t.builder.rune_offsets
                      ++ (t.builder.end_byte + t.byte_count % 2 ^ 32) % 2 ^ 32 ∷ []
                    else t.builder.rune_offsets))))
  unfolding scan_rune
  scan_rune_fields c sz t = (ground arith, (ground arith, (ground arith, ground arith)))

  pub rune_loop-IsScanned :
      (fuel : ℕ) (text : Bytes) (t : RuneScan) (pos : ℕ → ℕ)
      → length text ≤ fuel
      → t.builder.rune_count + t.rune_index + fuel < 2 ^ 32
      → t.builder.end_byte + t.byte_count + length text < 2 ^ 32
      → ((n : ℕ)
          → pos (t.builder.rune_count + t.rune_index + n)
            ≡ t.builder.end_byte + t.byte_count + bytes_of_runes n text)
      → IsSampledTo pos t.builder.rune_offsets (t.builder.rune_count + t.rune_index)
      → IsScanned pos text t (rune_loop v fuel text t)
  unfolding rune_loop bytes_of_runes
  rune_loop-IsScanned fuel [] t pos enough runes bytes at sampled = record {
    same_count = refl;
    same_byte = refl;
    same_ends = refl;
    sampled = sampled;
    all_bytes = omega arith;
    all_runes = bytes_of_runes_nil (t.rune_index - t.rune_index);
    runes_within = λ n lt. absurd (omega arith);
    index_le = omega arith;
    le_index = omega arith;
  }
  rune_loop-IsScanned zero (c ∷ cs) t pos enough runes bytes at sampled = absurd (omega arith)
  rune_loop-IsScanned (suc fuel) (c ∷ cs) t pos enough runes bytes at sampled =
      let r = decode_rune (c ∷ cs) in
      let rest = drop r.1 (c ∷ cs) in
      let t' = scan_rune v r t in
      let base = t.builder.rune_count in
      let k = t.rune_index in
      let (count, (byte, (ends, samples))) = scan_rune_fields r.0 r.1 t in
      let (some_bytes, inside) = decode_rune-size c cs in
      let left = length-drop r.1 (c ∷ cs) in
      let whole : (base + k) % 2 ^ 32 ≡ base + k = omega arith in
      let start : base + k ≡ base + k + 0 = omega arith in
      let here : (t.builder.end_byte + t.byte_count % 2 ^ 32) % 2 ^ 32 ≡ pos (base + k) =
        omega (arith, ap pos start, at 0) in
      let list = samples ∙ (λ i.
        if whole i % 100 == 0
        then t.builder.rune_offsets ++ here i ∷ []
        else t.builder.rune_offsets) in
      let next : base + k + 1 ≡ t'.builder.rune_count + t'.rune_index = omega (arith, count) in
      let sampled' =
        subst (λ n. IsSampledTo pos t'.builder.rune_offsets n) next
          (subst (λ xs. IsSampledTo pos xs (base + k + 1)) (sym list)
            (sample_step pos t.builder.rune_offsets (base + k) sampled)) in
      let at' : (n : ℕ)
          → pos (t'.builder.rune_count + t'.rune_index + n)
            ≡ t'.builder.end_byte + t'.byte_count + bytes_of_runes n rest =
        λ n.
          let place : t'.builder.rune_count + t'.rune_index + n ≡ base + k + suc n =
            omega (arith, next) in
          omega (arith, ap pos place, at (suc n), byte) in
      let later =
        rune_loop-IsScanned fuel rest t' pos (omega (arith, left)) (omega (arith, next))
          (omega (arith, left, byte)) at' sampled' in
      let u = rune_loop v fuel rest t' in
      let below = later.index_le in
      let above = later.le_index in
      let length_all = later.all_bytes in
      let runes_all = later.all_runes in
      let index : t'.rune_index ≡ suc k = omega (arith, next, count) in
      let one : u.rune_index - k ≡ suc (u.rune_index - t'.rune_index) = omega (arith, index) in
      record {
        same_count = later.same_count ∙ count;
        same_byte = later.same_byte ∙ byte;
        same_ends = later.same_ends ∙ ends;
        sampled =
            subst (λ n. IsSampledTo pos u.builder.rune_offsets (n + u.rune_index)) count
              later.sampled;
        all_bytes = omega (arith, left);
        all_runes = ap (λ n. bytes_of_runes n (c ∷ cs)) one ∙ omega (arith, left);
        runes_within = λ n lt.
            runes_within_step c cs (u.rune_index - t'.rune_index) later.runes_within n
              (omega (arith, one));
        index_le = omega (arith, index);
        le_index = omega (arith, index, left);
      }
