-- ===== src/Provider/OffsetLaws.antt =====
-- contentprovider.go: findOffset counts runes.
use zoekt_archived.Prelude.{
  ℕ, zero, suc, ◌+◌, ◌-◌, ◌*◌, ◌/◌, ◌%◌, ◌^◌, ◌≤◌, ◌<◌, ◌≡◌, refl, ap, sym, ◌∙◌, Bool, true, false,
  List, [], ◌∷◌, Bytes, length, drop, get_or, ◌==◌, if◌then◌else◌, arith,
}
use zoekt_archived.Bits.Utf8.{decode_rune}
use zoekt_archived.Index.File.{Access, ok, ◌>>=◌}
use zoekt_archived.Provider.Offset.{Offsets, element, skip_loop, find_offset, rune_offset_frequency}

-- The number of bytes that the first n runes of a text take.
unfoldable pub bytes_of_runes : ℕ → Bytes → ℕ
unfolding decode_rune
bytes_of_runes zero text = 0
bytes_of_runes (suc n) text =
    (decode_rune text).1 + bytes_of_runes n (drop (decode_rune text).1 text)

drop-nil : (n : ℕ) → drop {A = ℕ} n [] ≡ []
drop-nil zero = refl
drop-nil (suc n) = refl

pub drop-drop : (m n : ℕ) (xs : Bytes) → drop n (drop m xs) ≡ drop (m + n) xs
drop-drop zero n xs = let place : n ≡ 0 + n = omega arith in ap (λ j. drop j xs) place
drop-drop (suc m) n [] = drop-nil n ∙ sym (drop-nil (suc m + n))
drop-drop (suc m) n (x ∷ xs) =
    let place : suc m + n ≡ suc (m + n) = omega arith in
    drop-drop m n xs ∙ ap (λ j. drop j (x ∷ xs)) (sym place)

pub bytes_of_runes_add :
    (m n : ℕ) (text : Bytes)
    → bytes_of_runes (m + n) text
      ≡ bytes_of_runes m text + bytes_of_runes n (drop (bytes_of_runes m text) text)
unfolding bytes_of_runes
bytes_of_runes_add zero n text =
    let place : 0 + n ≡ n = omega arith in ap (λ j. bytes_of_runes j text) place ∙ omega arith
bytes_of_runes_add (suc m) n text =
    let sz = (decode_rune text).1 in
    let front = bytes_of_runes m (drop sz text) in
    let place : suc m + n ≡ suc (m + n) = omega arith in
    let tail = bytes_of_runes_add m n (drop sz text) in
    let same = ap (λ xs. bytes_of_runes n xs) (drop-drop sz front text) in
    ap (λ j. bytes_of_runes j text) place ∙ omega (arith, tail, same)

skip_loop_lem :
    (left off : ℕ) (data' : Bytes)
    → off + bytes_of_runes left data' < 2 ^ 32
    → skip_loop left data' off ≡ off + bytes_of_runes left data'
unfolding skip_loop bytes_of_runes
skip_loop_lem zero off data' lt = omega arith
skip_loop_lem (suc left) off data' lt =
    let sz = (decode_rune data').1 in
    let same : (off + sz) % 2 ^ 32 ≡ off + sz = omega arith in
    ap (skip_loop left (drop sz data')) same
    ∙ skip_loop_lem left (off + sz) (drop sz data') (omega arith)
    ∙ omega arith

-- The samples are the byte offsets of the runes at multiples of the frequency.
unfoldable pub IsSampled : Bytes → List ℕ → Type 0
IsSampled text sample =
    (k : ℕ)
    → k < length sample
    → get_or sample k 0 ≡ bytes_of_runes (k * rune_offset_frequency) text

element-ok : (xs : List ℕ) (i : ℕ) → i < length xs → element xs i ≡ ok (get_or xs i 0)
unfolding element
element-ok xs i lt = ground arith

branch-ok :
    (b : Bool) (o : Access ℕ) (n : ℕ)
    → (b ≡ false → o ≡ ok n)
    → (if b then ok 0 else o) ≡ ok (if b then 0 else n)
branch-ok true o n eq = refl
branch-ok false o n eq = eq refl

-- The runes of the documents before document idx.
unfoldable pub runes_before : Offsets → ℕ → ℕ
runes_before t idx = if idx == 0 then 0 else get_or t.rune_ends (idx - 1) 0

-- Skipping so many runes of either text from any offset ends at the same one.
unfoldable pub SameSkip : ℕ → Bytes → Bytes → Type 0
unfolding skip_loop
SameSkip left xs ys = (off : ℕ) → skip_loop left xs off ≡ skip_loop left ys off

-- Where the samples are right and the runes skipped in what is read are those of the text, findOffset gives the bytes that the runes up to the one asked for take, less the start of the document,
-- if these are uint32 values and in range.
pub find_offset_lem :
    (text : Bytes) (t : Offsets) (idx r : ℕ) (data' : ℕ → Bytes)
    → IsSampled text t.sample
    → idx < length t.starts
    → idx ≤ length t.rune_ends
    → r + runes_before t idx < 2 ^ 32
    → (r + runes_before t idx) / rune_offset_frequency < length t.sample
    → bytes_of_runes (r + runes_before t idx) text < 2 ^ 32
    → get_or t.starts idx 0 ≤ bytes_of_runes (r + runes_before t idx) text
    → SameSkip
        ((r + runes_before t idx) % rune_offset_frequency)
        (data' (
          bytes_of_runes
            ((r + runes_before t idx) / rune_offset_frequency * rune_offset_frequency)
            text))
        (drop
          (bytes_of_runes
            ((r + runes_before t idx) / rune_offset_frequency * rune_offset_frequency)
            text)
          text)
    → find_offset false t (λ off. ok (data' off)) idx r
      ≡ ok (bytes_of_runes (r + runes_before t idx) text - get_or t.starts idx 0)
unfolding find_offset IsSampled runes_before SameSkip
find_offset_lem text t idx r data' sampled in_starts in_ends small in_sample bytes le same_skip =
    let n = r + runes_before t idx in
    let k = n / 100 in
    let left = n % 100 in
    let start = get_or t.starts idx 0 in
    let before =
      branch-ok (idx == 0) (element t.rune_ends (idx - 1)) (get_or t.rune_ends (idx - 1) 0)
        (λ later. element-ok t.rune_ends (idx - 1) (ground arith)) in
    let whole : n % 2 ^ 32 ≡ n = omega arith in
    let result : ℕ → ℕ → ℕ → ℕ =
      λ first n' off. (skip_loop (n' % 100) (data' off) off + (2 ^ 32 - first)) % 2 ^ 32 in
    let sum : k * 100 + left ≡ n = omega arith in
    let parts =
      ap (λ j. bytes_of_runes j text) (sym sum) ∙ bytes_of_runes_add (k * 100) left text in
    let near = bytes_of_runes (k * 100) text in
    let skipped =
      same_skip near ∙ skip_loop_lem left near (drop near text) (omega (arith, parts)) in
    let number : result start n near ≡ bytes_of_runes n text - start =
      omega (arith, parts, skipped) in
    ap
      (λ x. x >>= (λ first. (if idx == 0 then ok 0 else element t.rune_ends (idx - 1)) >>= (λ runes.
        element t.sample ((r + runes) % 2 ^ 32 / 100)
        >>= (λ off. ok (result first ((r + runes) % 2 ^ 32) off)))))
      (element-ok t.starts idx in_starts)
    ∙ ap
        (λ x. x >>= (λ runes.
          element t.sample ((r + runes) % 2 ^ 32 / 100)
          >>= (λ off. ok (result start ((r + runes) % 2 ^ 32) off))))
        before
    ∙ ap (λ n'. element t.sample (n' / 100) >>= (λ off. ok (result start n' off))) whole
    ∙ ap (λ x. x >>= (λ off. ok (result start n off))) (element-ok t.sample k in_sample)
    ∙ ap (λ off. ok (result start n off)) (sampled k in_sample)
    ∙ ap ok number
