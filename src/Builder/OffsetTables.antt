-- ===== src/Builder/OffsetTables.antt =====
-- indexbuilder.go and contentprovider.go: the tables that newSearchableString leaves are those findOffset reads.
use zoekt_archived.Prelude.{
  ℕ, zero, suc, ◌+◌, ◌-◌, ◌*◌, ◌%◌, ◌^◌, ◌≤◌, ◌<◌, ◌≡◌, refl, ap, sym, ◌∙◌, true, false, List, [],
  ◌∷◌, ◌++◌, Bytes, length, drop, take, get_or, get_or-append, get_or-append_length, ◌==◌,
  if◌then◌else◌, arith, append_assoc, append-nil,
}
use zoekt_archived.Bits.Deltas.{Varint, DocumentSection}
use zoekt_archived.Index.Writing.{flat}
use zoekt_archived.Provider.OffsetLaws.{bytes_of_runes, bytes_of_runes_add, runes_before}
use zoekt_archived.Builder.Postings.{
  PostingsBuilder, RuneScan, done, failed, new_postings_builder, finish_string, is_behind,
  count_runes, end_string, pair_runes, take_boundaries,
}
use zoekt_archived.Builder.SampleLaws.{bytes_of_runes_nil, IsSampledTo}

-- The runes before document i, by the ends of the documents.
unfoldable pub runes_to : List ℕ → ℕ → ℕ
runes_to ends zero = 0
runes_to ends (suc i) = get_or ends i 0

-- A builder to which the given texts were added: its counts, its samples and the ends of its documents.
pub record IsIndexed (s : PostingsBuilder) (docs : List Bytes) : Type 0 where
  pub counted : bytes_of_runes s.rune_count (flat docs) ≡ length (flat docs)
  pub ended : s.end_byte ≡ length (flat docs)
  pub sampled : IsSampledTo (λ n. bytes_of_runes n (flat docs)) s.rune_offsets s.rune_count
  pub few_runes : s.rune_count ≤ length (flat docs)
  pub proper : (n : ℕ) → n < s.rune_count → bytes_of_runes n (flat docs) < length (flat docs)
  pub each : length s.end_runes ≡ length docs
  pub last_end : runes_to s.end_runes (length docs) ≡ s.rune_count
  pub inside : (i : ℕ) → i ≤ length docs → runes_to s.end_runes i ≤ s.rune_count
  pub ends :
      (i : ℕ)
      → i ≤ length docs
      → bytes_of_runes (runes_to s.end_runes i) (flat docs) ≡ length (flat (take i docs))

runes_to_nil : (i : ℕ) → runes_to [] i ≡ 0
unfolding runes_to
runes_to_nil zero = refl
runes_to_nil (suc i) = refl

take_nil : (i : ℕ) → take {A = Bytes} i [] ≡ []
take_nil zero = refl
take_nil (suc i) = refl

pub new_postings_builder-IsIndexed : IsIndexed new_postings_builder []
unfolding new_postings_builder flat bytes_of_runes
new_postings_builder-IsIndexed = record {
  counted = refl;
  ended = refl;
  sampled = record {
    right = λ k lt. absurd (omega arith);
    enough = omega arith;
    few = omega arith;
  };
  few_runes = omega arith;
  proper = λ n lt. absurd (omega arith);
  each = refl;
  last_end = runes_to_nil 0;
  inside = λ i le. omega (arith, runes_to_nil i);
  ends =
      λ i le. bytes_of_runes_nil (runes_to [] i) ∙ ap (λ xs. length (flat xs)) (sym (take_nil i));
}

-- No one of the first n runes of the text goes on in the bytes behind it.
unfoldable pub IsApart : ℕ → Bytes → Bytes → Type 0
unfolding bytes_of_runes
IsApart n text behind = (m : ℕ) → m ≤ n → bytes_of_runes m (text ++ behind) ≡ bytes_of_runes m text

drop-length : (xs ys : Bytes) → drop (length xs) (xs ++ ys) ≡ ys
drop-length [] ys = refl
drop-length (x ∷ xs) ys = drop-length xs ys

pub flat-snoc : (docs : List Bytes) (text : Bytes) → flat (docs ++ text ∷ []) ≡ flat docs ++ text
unfolding flat
flat-snoc [] text = append-nil text
flat-snoc (d ∷ docs) text =
    ap (λ xs. d ++ xs) (flat-snoc docs text) ∙ sym (append_assoc d (flat docs) text)

pub take-snoc :
    (i : ℕ) (docs : List Bytes) (text : Bytes)
    → i ≤ length docs
    → take i (docs ++ text ∷ []) ≡ take i docs
take-snoc zero docs text le = refl
take-snoc (suc i) [] text le = absurd (omega arith)
take-snoc (suc i) (d ∷ docs) text le = ap (λ ds. d ∷ ds) (take-snoc i docs text (omega arith))

pub take_all : (docs : List Bytes) → take (length docs) docs ≡ docs
take_all [] = refl
take_all (d ∷ docs) = ap (λ ds. d ∷ ds) (take_all docs)

pub flat-take-drop :
    (i : ℕ) (docs : List Bytes) → flat docs ≡ flat (take i docs) ++ flat (drop i docs)
unfolding flat
flat-take-drop zero docs = refl
flat-take-drop (suc i) [] = refl
flat-take-drop (suc i) (d ∷ docs) =
    ap (λ xs. d ++ xs) (flat-take-drop i docs)
    ∙ sym (append_assoc d (flat (take i docs)) (flat (drop i docs)))

-- Behind the runes of a text the runes of the next one are counted.
pub past_text :
    (r n : ℕ) (text next : Bytes)
    → bytes_of_runes r (text ++ next) ≡ length text
    → bytes_of_runes (r + n) (text ++ next) ≡ length text + bytes_of_runes n next
past_text r n text next whole =
    let rest = ap (λ k. drop k (text ++ next)) whole ∙ drop-length text next in
    bytes_of_runes_add r n (text ++ next) ∙ (λ i. whole i + bytes_of_runes n (rest i))

pub runes_to-old :
    (xs : List ℕ) (x i : ℕ) → i ≤ length xs → runes_to (xs ++ x ∷ []) i ≡ runes_to xs i
unfolding runes_to
runes_to-old xs x zero le = refl
runes_to-old xs x (suc i) le = get_or-append xs (x ∷ []) i 0 (omega arith)

pub runes_to-new : (xs : List ℕ) (x : ℕ) → runes_to (xs ++ x ∷ []) (suc (length xs)) ≡ x
unfolding runes_to
runes_to-new xs x = get_or-append_length xs [] x 0

pub finish_string-done :
    (v : Varint) (n : ℕ) (t : RuneScan) (secs : List DocumentSection)
    → (finish_string v n t).rune_sections ≡ done secs
    → (finish_string v n t).builder ≡ end_string n (count_runes t)
unfolding finish_string
finish_string-done v n t secs good =
    let at_end = (t.builder.rune_count + t.rune_index) % 2 ^ 32 in
    let runes =
      pair_runes (take_boundaries t.byte_count at_end t.byte_boundaries t.rune_boundaries).1 in
    elim (is_behind t.byte_count t.byte_boundaries)
        as (λ b.
          (if b then failed else runes) ≡ done secs
          → (if b then count_runes t else end_string n (count_runes t))
            ≡ end_string n (count_runes t)) [
              | true ↦ λ bad. absurd (ground arith)
              | false ↦ λ _. refl
            ]
      good

pub runes_before_lem :
    (ends xs ys : List ℕ) (i : ℕ)
    → runes_before (record { sample = xs; rune_ends = ends; starts = ys }) i ≡ runes_to ends i
unfolding runes_before runes_to
runes_before_lem ends xs ys zero = refl
runes_before_lem ends xs ys (suc i) =
    let back : suc i - 1 ≡ i = omega arith in
    let test : (suc i == 0) ≡ false = ground arith in
    ap (λ b. if b then 0 else get_or ends (suc i - 1) 0) test ∙ ap (λ j. get_or ends j 0) back

-- The runes of a text that is at its end, and one that is within it.
pub bytes_of_runes_le :
    (m n : ℕ) (text : Bytes) → m ≤ n → bytes_of_runes m text ≤ bytes_of_runes n text
bytes_of_runes_le m n text le =
    let sum : m + (n - m) ≡ n = omega arith in
    let parts = bytes_of_runes_add m (n - m) text in
    omega (arith, parts, ap (λ j. bytes_of_runes j text) sum)

pub sample_more :
    (docs text : Bytes) (sample : List ℕ) (n : ℕ)
    → IsApart n docs text
    → IsSampledTo (λ m. bytes_of_runes m docs) sample n
    → IsSampledTo (λ m. bytes_of_runes m (docs ++ text)) sample n
unfolding IsApart
sample_more docs text sample n apart old =
    let few = old.few in
    record {
      right = λ k lt. old.right k lt ∙ sym (apart (k * 100) (omega (arith, few)));
      enough = old.enough;
      few = few;
    }
