-- ===== src/Eval/Search/Complete.antt =====
-- eval.go: the loop of indexData.Search finds exactly the documents that match.
use zoekt_archived.Prelude.{
  ℕ, zero, suc, ◌≤◌, ◌<◌, ◌≡◌, Bool, true, false, List, [], ◌∷◌, ◌++◌, if◌then◌else◌,
}
use zoekt_archived.MatchTree.{MatchIterator, Tree, max_u32}
use zoekt_archived.MatchTree.Meaning.{meaning}
use zoekt_archived.MatchTree.Next.{prepare}
use zoekt_archived.MatchTree.Ready.{IsMatchIterator, IsReady, hits}
use zoekt_archived.MatchTree.Fits.{AllInContent}
use zoekt_archived.Eval.Search.{
  Limits, Surroundings, SearchState, Outcome, exhausted, limited, panicked, out_of_fuel,
  is_over_limit, is_corrupt,
}

-- The documents below n that are wanted, in order.
unfoldable pub wanted_below : (ℕ → Bool) → ℕ → List ℕ
wanted_below want zero = []
wanted_below want (suc n) = if want n then wanted_below want n ++ n ∷ [] else wanted_below want n

-- The loop ended with the wanted documents below the one where it stopped: below docCount, or below
-- d < docCount, at which the context was done or a limit was reached.
abbrev pub IsComplete :
    {I R : Type 0} (limits : Limits) (around : Surroundings I R) (want : ℕ → Bool)
    → Outcome I R
    → Type 0
IsComplete limits around want (exhausted s) = s.files ≡ wanted_below want limits.doc_count
IsComplete limits around want (limited d s) =
    (s.files ≡ wanted_below want d)
    × (d < limits.doc_count)
    × ((round : ℕ) × (is_over_limit limits around round s ≡ true))
IsComplete limits around want panicked = ⊥
IsComplete limits around want out_of_fuel = ⊥

module _ {I R : Type 0} (it : MatchIterator I) (Ready : I → ℕ → Type 0)
    (laws : IsMatchIterator it Ready) (limits : Limits) (around : Surroundings I R)
    (bound : limits.doc_count ≤ max_u32)
    (in_content : (s : I) (d : ℕ) → Ready s d → AllInContent (around.provider d) (hits it s d))
    (sub_repos : (d : ℕ) → d < limits.doc_count → is_corrupt limits around d ≡ false)
    (want : ℕ → Bool) where
  -- The tree is ready for the document d, and means what is wanted of it.
  abbrev Serves : ℕ → Tree I R → Type 0
  Serves d t = IsReady Ready d t × (meaning (around.provider d) (prepare it d t) ≡ want d)

  record Inv (s : SearchState I R) : Type 0 where
    found : s.files ≡ wanted_below want s.next_free
    serves : (d : ℕ) → s.next_free ≤ d → d < limits.doc_count → Serves d s.tree
    in_range : s.next_free ≤ limits.doc_count

  abbrev Complete : Outcome I R → Type 0
  Complete = IsComplete limits around want
