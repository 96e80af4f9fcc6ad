-- ===== src/Tests/Tagging.antt =====
-- tagsToSections on a small input.
use zoekt_archived.Prelude.{◌≡◌, refl, [], ◌∷◌, List, Bytes, arith}
use zoekt_archived.Builder.Postings.{done, failed}
use zoekt_archived.Build.Tags.{Entry, tags_to_sections}
use zoekt_archived.Build.TagRuns.{IsAccepted, tags_to_sections-IsAccepted}

-- ab, and on the second line ab cd ab.
abbrev source : Bytes
source = 97 ∷ 98 ∷ 10 ∷ 97 ∷ 98 ∷ 32 ∷ 99 ∷ 100 ∷ 32 ∷ 97 ∷ 98 ∷ []

abbrev ab : Bytes
ab = 97 ∷ 98 ∷ []

abbrev tags : List Entry
tags =
    record { sym = ab; line = 1 }
    ∷ record { sym = 99 ∷ 100 ∷ []; line = 2 }
    ∷ record { sym = ab; line = 2 }
    ∷ record { sym = 99 ∷ 100 ∷ []; line = 2 }
    ∷ record { sym = ab; line = 0 }
    ∷ []

tags_to_sections-IsAccepted_example : IsAccepted source tags (tags_to_sections source tags)
tags_to_sections-IsAccepted_example = tags_to_sections-IsAccepted source tags (omega arith)

-- The fourth tag is not found behind the third.
three_sections :
    (tags_to_sections source tags
      ≡ done (
          record { start = 0; end = 2 }
          ∷ record { start = 6; end = 8 }
          ∷ record { start = 9; end = 11 }
          ∷ []))
    × (tags_to_sections source (record { sym = ab; line = 3 } ∷ []) ≡ failed)
unfolding tags_to_sections
three_sections = (refl, refl)
