-- ===== src/Builder/BranchMasks.antt =====
-- indexbuilder.go and matchtree.go: the mask of a document has a bit for each of its branches.
use Prim.Native.Nat.{max, digits, bit_or-bitwise}
use zoekt_archived.Prelude.{
  ℕ, zero, suc, ◌+◌, ◌-◌, ◌*◌, ◌/◌, ◌%◌, ◌^◌, ◌≤◌, ◌<◌, ◌≡◌, bit_or, refl, ap, ◌∙◌, Bool, true,
  false, ◌||◌, List, [], ◌∷◌, Option, none, some, Bytes, length, ◌==◌, if◌then◌else◌, if-intro,
  ||_assoc, not, ◌&&◌, arith,
}
use zoekt_archived.Query.Parse.Token.{bytes_eq}
use zoekt_archived.Builder.Add.{branch_mask, mask_loop}

abbrev join_digits : ℕ → ℕ → ℕ → ℕ
join_digits n a b = digits (λ b. b) max n a b

join_digits_fuel : (n m a b : ℕ) → a ≤ n → a ≤ m → join_digits n a b ≡ join_digits m a b
join_digits_fuel zero zero a b p q = refl
join_digits_fuel zero (suc m) zero b p q = refl
join_digits_fuel zero (suc m) (suc a) b p q = absurd (omega arith)
join_digits_fuel (suc n) zero zero b p q = refl
join_digits_fuel (suc n) zero (suc a) b p q = absurd (omega arith)
join_digits_fuel (suc n) (suc m) zero b p q = refl
join_digits_fuel (suc n) (suc m) (suc a) b p q =
    omega (arith, join_digits_fuel n m (suc a / 2) (b / 2) (omega arith) (omega arith))

zero-bit_or : (b : ℕ) → bit_or 0 b ≡ b
zero-bit_or b = bit_or-bitwise 0 b

bit_or-digit : (a b : ℕ) → bit_or a b ≡ bit_or (a / 2) (b / 2) * 2 + max (a % 2) (b % 2)
bit_or-digit zero b = omega (arith, zero-bit_or b, zero-bit_or (b / 2))
bit_or-digit (suc a) b = omega (
  arith,
  bit_or-bitwise (suc a) b,
  bit_or-bitwise (suc a / 2) (b / 2),
  join_digits_fuel a (suc a / 2) (suc a / 2) (b / 2) (omega arith) (omega arith),
)

-- Bit i of a number.
unfoldable pub has_bit : ℕ → ℕ → Bool
has_bit zero n = n % 2 == 1
has_bit (suc i) n = has_bit i (n / 2)

has_bit-bit_or : (i a b : ℕ) → has_bit i (bit_or a b) ≡ (has_bit i a || has_bit i b)
unfolding has_bit
has_bit-bit_or zero a b = ground (arith, bit_or-digit a b)
has_bit-bit_or (suc i) a b =
    let half : bit_or a b / 2 ≡ bit_or (a / 2) (b / 2) = omega (arith, bit_or-digit a b) in
    ap (has_bit i) half ∙ has_bit-bit_or i (a / 2) (b / 2)

has_bit_zero : (i : ℕ) → has_bit i 0 ≡ false
unfolding has_bit
has_bit_zero zero = refl
has_bit_zero (suc i) = has_bit_zero i

has_bit-power : (i j : ℕ) → has_bit i (2 ^ j) ≡ (i == j)
unfolding has_bit
has_bit-power zero zero = refl
has_bit-power zero (suc j) = ground arith
has_bit-power (suc i) zero = has_bit_zero i ∙ ground arith
has_bit-power (suc i) (suc j) =
    let half : 2 ^ suc j / 2 ≡ 2 ^ j = omega arith in
    ap (has_bit i) half ∙ has_bit-power i j ∙ ground arith

power_positive : (j : ℕ) → 0 < 2 ^ j
power_positive zero = omega arith
power_positive (suc j) = omega (arith, power_positive j)

power_lt : (j d : ℕ) → 2 ^ j < 2 ^ (j + suc d)
power_lt j zero =
    let next : j + 1 ≡ suc j = omega arith in
    let double = ap (λ n. 2 ^ n) next in omega (arith, double, power_positive j)
power_lt j (suc d) =
    let next : j + suc (suc d) ≡ suc (j + suc d) = omega arith in
    let double = ap (λ n. 2 ^ n) next in omega (arith, double, power_lt j d)

power_whole : (j : ℕ) → j < 64 → 2 ^ j % 2 ^ 64 ≡ 2 ^ j
power_whole j lt =
    let sum : j + suc (63 - j) ≡ 64 = omega arith in
    let below = power_lt j (63 - j) in let top = ap (λ n. 2 ^ n) sum in omega (arith, below, top)

-- The first branch of that name is the one at index k.
unfoldable pub first_at : List Bytes → Bytes → ℕ → Bool
unfolding bytes_eq
first_at [] br k = false
first_at (b ∷ bs) br zero = bytes_eq b br
first_at (b ∷ bs) br (suc k) = not (bytes_eq b br) && first_at bs br k

unfoldable pub any_at : List Bytes → List Bytes → ℕ → Bool
unfolding first_at
any_at bs [] k = false
any_at bs (br ∷ brs) k = first_at bs br k || any_at bs brs k

unfoldable pub is_branch : List Bytes → Bytes → Bool
unfolding bytes_eq
is_branch [] br = false
is_branch (b ∷ bs) br = bytes_eq b br || is_branch bs br

unfoldable pub all_branches : List Bytes → List Bytes → Bool
unfolding is_branch
all_branches bs [] = true
all_branches bs (br ∷ brs) = is_branch bs br && all_branches bs brs

branch_mask-below :
    (i : ℕ) (bs : List Bytes) (br : Bytes) (k : ℕ)
    → i + length bs ≤ 64
    → k < i
    → has_bit k (branch_mask i bs br) ≡ false
unfolding branch_mask
branch_mask-below i [] br k fits lt = has_bit_zero k
branch_mask-below i (b ∷ bs) br k fits lt =
    let later = branch_mask-below (i + 1) bs br k (omega arith) (omega arith) in
    let here : has_bit k (2 ^ i % 2 ^ 64) ≡ false =
      ap (has_bit k) (power_whole i (omega arith)) ∙ has_bit-power k i ∙ ground arith in
    if-intro (λ m. has_bit k m ≡ false) (bytes_eq b br) (2 ^ i % 2 ^ 64) (branch_mask (i + 1) bs br)
      (λ _. here) (λ _. later)

has_bit-branch_mask :
    (i : ℕ) (bs : List Bytes) (br : Bytes) (k : ℕ)
    → i + length bs ≤ 64
    → has_bit (i + k) (branch_mask i bs br) ≡ first_at bs br k
unfolding branch_mask first_at
has_bit-branch_mask i [] br k fits = has_bit_zero (i + k)
has_bit-branch_mask i (b ∷ bs) br zero fits =
    let at : i + 0 ≡ i = omega arith in
    let mask = branch_mask (i + 1) bs br in
    let here = ap (has_bit (i + 0)) (power_whole i (omega arith)) ∙ has_bit-power (i + 0) i in
    let later =
      ap (λ j. has_bit j mask) at ∙ branch_mask-below (i + 1) bs br i (omega arith) (omega arith) in
    elim (bytes_eq b br) as (λ t. has_bit (i + 0) (if t then 2 ^ i % 2 ^ 64 else mask) ≡ t) [
      | true ↦ here ∙ ground arith
      | false ↦ later
    ]
has_bit-branch_mask i (b ∷ bs) br (suc k) fits =
    let at : i + suc k ≡ i + 1 + k = omega arith in
    let mask = branch_mask (i + 1) bs br in
    let here =
      ap (has_bit (i + suc k)) (power_whole i (omega arith)) ∙ has_bit-power (i + suc k) i in
    let later = ap (λ j. has_bit j mask) at ∙ has_bit-branch_mask (i + 1) bs br k (omega arith) in
    elim (bytes_eq b br)
      as (λ t.
        has_bit (i + suc k) (if t then 2 ^ i % 2 ^ 64 else mask) ≡ (not t && first_at bs br k)) [
          | true ↦ here ∙ ground arith
          | false ↦ later
        ]

not_zero : (n : ℕ) → 0 < n → (n == 0) ≡ false
not_zero n pos = ground (arith, pos)

branch_mask-zero :
    (i : ℕ) (bs : List Bytes) (br : Bytes)
    → i + length bs ≤ 64
    → (branch_mask i bs br == 0) ≡ not (is_branch bs br)
unfolding branch_mask is_branch
branch_mask-zero i [] br fits = refl
branch_mask-zero i (b ∷ bs) br fits =
    let later = branch_mask-zero (i + 1) bs br (omega arith) in
    let whole = power_whole i (omega arith) in
    let some_bit = power_positive i in
    elim (bytes_eq b br)
      as (λ t.
        ((if t then 2 ^ i % 2 ^ 64 else branch_mask (i + 1) bs br) == 0)
        ≡ not (t || is_branch bs br)) [
          | true ↦ ap (λ n. n == 0) whole ∙ not_zero (2 ^ i) some_bit
          | false ↦ later
        ]

-- By what the loop returns: a name that is no branch, or a mask with just the bits that are new.
unfoldable pub IsMasked : List Bytes → List Bytes → ℕ → Option ℕ → Type 0
unfolding all_branches any_at has_bit
IsMasked bs brs mask none = all_branches bs brs ≡ false
IsMasked bs brs mask (some m) =
    (all_branches bs brs ≡ true) × ((k : ℕ) → has_bit k m ≡ (has_bit k mask || any_at bs brs k))

-- If the repository has at most 64 branches, then the loop over the branches of a document fails exactly if one
-- of them is no branch of the repository, and otherwise sets bit k of the mask exactly if one of them is the
-- name whose first place among the branches is k.
pub mask_loop-IsMasked :
    (bs brs : List Bytes) (mask : ℕ) → length bs ≤ 64 → IsMasked bs brs mask (mask_loop bs brs mask)
unfolding mask_loop IsMasked
mask_loop-IsMasked bs [] mask fits = (refl, λ k. ground arith)
mask_loop-IsMasked bs (br ∷ brs) mask fits =
    let m = branch_mask 0 bs br in
    let zero_mask = branch_mask-zero 0 bs br (omega arith) in
    let next = mask_loop bs brs (bit_or mask m) in
    let bits : (k : ℕ) → has_bit k (bit_or mask m) ≡ (has_bit k mask || first_at bs br k) = λ k.
      has_bit-bit_or k mask m
      ∙ ap (λ b. has_bit k mask || b)
          ((let place : k ≡ 0 + k = omega arith in ap (λ j. has_bit j m) place)
            ∙ has_bit-branch_mask 0 bs br k (omega arith)) in
    if-intro (IsMasked bs (br ∷ brs) mask) (m == 0) none next
      (λ missing. ground (arith, missing, zero_mask))
      (λ present.
        elim next as (λ o. IsMasked bs brs (bit_or mask m) o → IsMasked bs (br ∷ brs) mask o) [
          | none ↦ λ rest. ground (arith, rest)
          | some n ↦ λ (all, same). (
            ground (arith, all, present, zero_mask),
            λ k.
                same k
                ∙ ap (λ b. b || any_at bs brs k) (bits k)
                ∙ ||_assoc (has_bit k mask) (first_at bs br k) (any_at bs brs k),
          )
        ]
          (mask_loop-IsMasked bs brs (bit_or mask m) fits))
