-- ===== src/Tests/Checking.antt =====
-- CheckText on small inputs, and what Add makes of the texts that it accepts.
use zoekt_archived.Prelude.{◌≡◌, refl, not, ◌&&◌, leb, [], ◌∷◌, Bytes, some, length, arith}
use zoekt_archived.Bits.Ngrams.{split_ngrams}
use zoekt_archived.Builder.Add.{add, prepare_document}
use zoekt_archived.Builder.AddLaws.{Appended, HasLanguage}
use zoekt_archived.Builder.Postings.{new_postings_builder}
use zoekt_archived.Builder.CheckText.{check_text, binary_at, max_trigram_count}
use zoekt_archived.Builder.CheckLaws.{is_none, has_zero, insert_all, ngrams_of, check_text_lem}
use zoekt_archived.Builder.Accepted.{add-accepted}
use zoekt_archived.Tests.Building.{platform, document, start_builder}
use zoekt_archived.Tests.Postings.{base_128}

-- Twice the same n-gram, of runes of one and two bytes.
abbrev repeated : Bytes
repeated = 97 ∷ 195 ∷ 169 ∷ 97 ∷ 195 ∷ 169 ∷ 97 ∷ []

check_text_lem_example : is_none (check_text repeated) ≡ (
    not (has_zero repeated)
    && leb (length (insert_all [] (ngrams_of (split_ngrams repeated)))) max_trigram_count)
check_text_lem_example = check_text_lem repeated (omega arith)

two_ngrams : length (insert_all [] (ngrams_of (split_ngrams repeated))) ≡ 2
unfolding insert_all ngrams_of split_ngrams
two_ngrams = refl

binary_text : check_text (97 ∷ 195 ∷ 169 ∷ 0 ∷ 98 ∷ []) ≡ some (binary_at 3)
unfolding check_text
binary_text = refl

add-accepted_example :
    Appended base_128 platform start_builder
      (add base_128 platform start_builder document).0
      (record document { symbols = platform.sort_sections document.symbols })
    × HasLanguage start_builder (add base_128 platform start_builder document).0 document
unfolding check_text add prepare_document new_postings_builder
add-accepted_example = add-accepted base_128 platform start_builder document refl refl refl
