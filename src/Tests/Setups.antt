-- ===== src/Tests/Setups.antt =====
-- NewIndexBuilder and branch masks on small inputs.
use zoekt_archived.Prelude.{◌≡◌, refl, true, List, [], ◌∷◌, Bytes, none, some, arith}
use zoekt_archived.Builder.Add.{mask_loop}
use zoekt_archived.Builder.BranchMasks.{IsMasked, mask_loop-IsMasked}
use zoekt_archived.Builder.Setup.{Repository, new_index_builder, IsNew, new_index_builder-IsNew}

-- Two branches, and a name twice.
abbrev branch_names : List Bytes
branch_names = (109 ∷ []) ∷ (100 ∷ []) ∷ (109 ∷ []) ∷ []

mask_loop-IsMasked_example :
    IsMasked branch_names
      ((100 ∷ []) ∷ (109 ∷ []) ∷ [])
      0
      (mask_loop branch_names ((100 ∷ []) ∷ (109 ∷ []) ∷ []) 0)
mask_loop-IsMasked_example =
    mask_loop-IsMasked branch_names ((100 ∷ []) ∷ (109 ∷ []) ∷ []) 0 (omega arith)

two_bits :
    (mask_loop branch_names ((100 ∷ []) ∷ (109 ∷ []) ∷ []) 0 ≡ some 3)
    × (mask_loop branch_names ((100 ∷ []) ∷ (120 ∷ []) ∷ []) 0 ≡ none)
unfolding mask_loop
two_bits = (refl, refl)

abbrev repository : Repository
repository = record {
  file_url_template = [];
  line_fragment_template = [];
  commit_url_template = [];
  branches = branch_names;
  sub_repo_paths = (115 ∷ []) ∷ [];
}

new_index_builder-IsNew_example :
    IsNew
      (λ template. true)
      (λ paths. paths)
      repository
      (new_index_builder (λ template. true) (λ paths. paths) repository)
new_index_builder-IsNew_example =
    new_index_builder-IsNew (λ template. true) (λ paths. paths) repository (λ p paths. refl)
