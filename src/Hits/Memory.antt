-- ===== src/Hits/Memory.antt =====
-- hititer.go: an in-memory iterator over an ascending list meets the contract of a hitIterator.
use mathlib.Core.Path.{subst}
use zoekt_archived.Prelude.{
  ℕ, ◌+◌, ◌≤◌, ◌<◌, ◌≡◌, refl, ap, sym, ◌∙◌, inl, inr, ◌⊎◌, Bool, true, false, ◌||◌, List, [], ◌∷◌,
  length, leb, ◌==◌, if-intro, arith,
}
use zoekt_archived.Hits.{first_in_memory, skip_postings, next_in_memory, in_memory}
use zoekt_archived.Hits.Laws.{IsHitIterator}
use zoekt_archived.MatchTree.{max_u32}

-- Strictly ascending from a bound on, and below the end mark.
unfoldable pub IsAscending : ℕ → List ℕ → Type 0
IsAscending lo [] = Unit
IsAscending lo (p ∷ ps) = (lo ≤ p) × ((p < max_u32) × IsAscending (p + 1) ps)

unfoldable pub has_posting : List ℕ → ℕ → Bool
has_posting [] p = false
has_posting (x ∷ xs) p = (x == p) || has_posting xs p

pub ascending_weaken : (lo hi : ℕ) (ps : List ℕ) → hi ≤ lo → IsAscending lo ps → IsAscending hi ps
unfolding IsAscending
ascending_weaken lo hi [] le a = tt
ascending_weaken lo hi (p ∷ ps) le (b, (u, a)) = (omega arith, (u, a))

has_least :
    (lo p : ℕ) (ps : List ℕ)
    → IsAscending lo ps
    → has_posting ps p ≡ true
    → (lo ≤ p) × (p < max_u32)
unfolding IsAscending has_posting
has_least lo p [] a h = absurd (ground arith)
has_least lo p (x ∷ xs) (b, (u, a)) h = let later = has_least (x + 1) p xs a in ground arith

skip-IsAscending :
    (lo l : ℕ) (ps : List ℕ) → IsAscending lo ps → IsAscending lo (skip_postings l ps)
unfolding IsAscending skip_postings
skip-IsAscending lo l [] a = tt
skip-IsAscending lo l (p ∷ ps) (b, (u, a)) =
    if-intro (IsAscending lo) (leb p l) (skip_postings l ps) (p ∷ ps)
      (λ _.
        ascending_weaken (p + 1) lo (skip_postings l ps) (omega arith)
          (skip-IsAscending (p + 1) l ps a))
      (λ _. (b, (u, a)))

has-skip :
    (lo l p : ℕ) (ps : List ℕ)
    → IsAscending lo ps
    → (l < p → has_posting (skip_postings l ps) p ≡ has_posting ps p)
      × (p ≤ l → has_posting (skip_postings l ps) p ≡ false)
unfolding IsAscending has_posting skip_postings
has-skip lo l p [] a = (λ _. refl, λ _. refl)
has-skip lo l p (x ∷ xs) (b, (u, a)) =
    let (beyond, within) = has-skip (x + 1) l p xs a in
    let later = has_least (x + 1) p xs a in
    (λ lt. ground (arith, beyond lt), λ le. ground (arith, within le, later))

skip_length : (l : ℕ) (ps : List ℕ) → length (skip_postings l ps) ≤ length ps
unfolding skip_postings
skip_length l [] = omega arith
skip_length l (p ∷ ps) = let rest = skip_length l ps in ground arith

skip_all : (lo l : ℕ) (ps : List ℕ) → max_u32 ≤ l → IsAscending lo ps → skip_postings l ps ≡ []
unfolding IsAscending skip_postings
skip_all lo l [] le a = refl
skip_all lo l (p ∷ ps) le (b, (u, a)) = let rest = skip_all (p + 1) l ps le a in ground arith

-- The test for the end mark makes no difference to an ascending list.
pub next-skip : (l : ℕ) (ps : List ℕ) → IsAscending 0 ps → next_in_memory l ps ≡ skip_postings l ps
unfolding next_in_memory skip_postings
next-skip l ps a = let all = λ (le : max_u32 ≤ l). skip_all 0 l ps le a in ground arith

has-next :
    (l p : ℕ) (ps : List ℕ)
    → IsAscending 0 ps
    → (l < p → has_posting (next_in_memory l ps) p ≡ has_posting ps p)
      × (p ≤ l → has_posting (next_in_memory l ps) p ≡ false)
has-next l p ps a =
    let same = next-skip l ps a in
    let (beyond, within) = has-skip 0 l p ps a in
    (
      λ lt. ap (λ qs. has_posting qs p) same ∙ beyond lt,
      λ le. ap (λ qs. has_posting qs p) same ∙ within le,
    )

first_in_memory-has :
    (ps : List ℕ) → (first_in_memory ps ≡ max_u32) ⊎ (has_posting ps (first_in_memory ps) ≡ true)
unfolding first_in_memory has_posting
first_in_memory-has [] = inl refl
first_in_memory-has (x ∷ xs) = inr (ground arith)

first_in_memory_least :
    (ps : List ℕ) (p : ℕ) → IsAscending 0 ps → has_posting ps p ≡ true → first_in_memory ps ≤ p
unfolding first_in_memory has_posting IsAscending
first_in_memory_least [] p a h = absurd (ground arith)
first_in_memory_least (x ∷ xs) p (b, (u, a)) h =
    let later = has_least (x + 1) p xs a in ground arith

next_length : (l : ℕ) (ps : List ℕ) → IsAscending 0 ps → length (next_in_memory l ps) ≤ length ps
next_length l ps a = omega (arith, ap length (next-skip l ps a), skip_length l ps)

skip_shorter :
    (l : ℕ) (ps : List ℕ)
    → first_in_memory ps ≤ l
    → first_in_memory ps < max_u32
    → length (skip_postings l ps) < length ps
unfolding skip_postings first_in_memory
skip_shorter l [] le lt = absurd (omega arith)
skip_shorter l (p ∷ ps) le lt = let rest = skip_length l ps in ground arith

next_shorter :
    (l : ℕ) (ps : List ℕ)
    → IsAscending 0 ps
    → first_in_memory ps ≤ l
    → first_in_memory ps < max_u32
    → length (next_in_memory l ps) < length ps
next_shorter l ps a le lt = omega (arith, ap length (next-skip l ps a), skip_shorter l ps le lt)

has-next_within :
    (l p : ℕ) (ps : List ℕ)
    → IsAscending 0 ps
    → has_posting (next_in_memory l ps) p ≡ true
    → has_posting ps p ≡ true
has-next_within l p ps a h =
    let (beyond, within) = has-next l p ps a in ground (arith, beyond, within)

-- inMemoryIterator meets the contract of a hitIterator, on an ascending list below maxUInt32.
pub in_memory-IsHitIterator : IsHitIterator in_memory (IsAscending 0) has_posting length
unfolding has_posting
in_memory-IsHitIterator = record {
  has_bound = λ s p ok h. (has_least 0 p s ok h).1;
  first_hit = λ s ok. first_in_memory-has s;
  first_least = first_in_memory_least;
  next_ok = λ s l ok. subst (IsAscending 0) (sym (next-skip l s ok)) (skip-IsAscending 0 l s ok);
  next_keeps = λ s l p ok lt _. (has-next l p s ok).0 lt;
  next_within = λ s l p ok h. has-next_within l p s ok h;
  next_drops = λ s l ok le. (has-next l (first_in_memory s) s ok).1 le;
  next_ends = λ s p ok.
      ap (λ qs. has_posting qs p) (next-skip max_u32 s ok ∙ skip_all 0 max_u32 s (omega arith) ok);
  next_left = λ s l ok. next_length l s ok;
  next_less = λ s l ok le lt. next_shorter l s ok le lt;
}
