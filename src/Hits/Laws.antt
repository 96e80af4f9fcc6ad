-- ===== src/Hits/Laws.antt =====
-- hititer.go: what the code that uses a hitIterator relies on.
use zoekt_archived.Prelude.{ℕ, ◌≤◌, ◌<◌, ◌≡◌, ◌⊎◌, Bool, true, false}
use zoekt_archived.Hits.{HitIterator}
use zoekt_archived.MatchTree.{max_u32}

-- `has s p` says that p is a hit to come, and `left s` bounds how many there are. Skipping past a limit
-- drops the first hit if it is within the limit, may drop others within it, and keeps those beyond.
pub record IsHitIterator {S : Type 0} (it : HitIterator S) (Ok : S → Type 0) (has : S → ℕ → Bool)
    (left : S → ℕ) : Type 0 where
  pub has_bound : (s : S) (p : ℕ) → Ok s → has s p ≡ true → p < max_u32
  pub first_hit : (s : S) → Ok s → (it.first s ≡ max_u32) ⊎ (has s (it.first s) ≡ true)
  pub first_least : (s : S) (p : ℕ) → Ok s → has s p ≡ true → it.first s ≤ p
  pub next_ok : (s : S) (l : ℕ) → Ok s → Ok (it.next l s)
  pub next_keeps : (s : S) (l p : ℕ) → Ok s → l < p → l < max_u32 → has (it.next l s) p ≡ has s p
  pub next_within : (s : S) (l p : ℕ) → Ok s → has (it.next l s) p ≡ true → has s p ≡ true
  pub next_drops : (s : S) (l : ℕ) → Ok s → it.first s ≤ l → has (it.next l s) (it.first s) ≡ false
  pub next_ends : (s : S) (p : ℕ) → Ok s → has (it.next max_u32 s) p ≡ false
  pub next_left : (s : S) (l : ℕ) → Ok s → left (it.next l s) ≤ left s
  pub next_less :
      (s : S) (l : ℕ) → Ok s → it.first s ≤ l → it.first s < max_u32 → left (it.next l s) < left s
