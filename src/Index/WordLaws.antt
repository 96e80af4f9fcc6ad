-- ===== src/Index/WordLaws.antt =====
-- binary.BigEndian: a word that was put down reads back, and so does a list of words.
use zoekt_archived.Prelude.{
  ℕ, zero, suc, ◌+◌, ◌*◌, ◌/◌, ◌%◌, ◌^◌, ◌≤◌, ◌<◌, ◌≡◌, refl, ap, ◌∙◌, List, [], ◌∷◌, ◌++◌, Bytes,
  some, length, All, arith,
}
use zoekt_archived.Bits.DeltasLaws.{IsU32}
use zoekt_archived.Index.Words.{put_u32, get_u32}
use zoekt_archived.Index.File.{ok, ◌>>=◌}
use zoekt_archived.Index.Section.{words_loop}

split_u32 :
    (n : ℕ)
    → n < 2 ^ 32
    → (n / 2 ^ 24 % 256) * 2 ^ 24
        + (n / 2 ^ 16 % 256) * 2 ^ 16
        + (n / 2 ^ 8 % 256) * 2 ^ 8
        + n % 256
      ≡ n
split_u32 n lt = omega arith

pub get-put_u32 : (n : ℕ) (rest : Bytes) → n < 2 ^ 32 → get_u32 (put_u32 n ++ rest) ≡ some (n, rest)
unfolding get_u32 put_u32
get-put_u32 n rest lt = ap (λ m. some (m, rest)) (split_u32 n lt)

unfoldable pub flat_words : List ℕ → Bytes
flat_words [] = []
flat_words (n ∷ ns) = put_u32 n ++ flat_words ns

pub length-flat_words : (ns : List ℕ) → length (flat_words ns) ≡ 4 * length ns
unfolding flat_words put_u32
length-flat_words [] = refl
length-flat_words (n ∷ ns) = omega (arith, length-flat_words ns)

pub words_loop-flat_words :
    (fuel : ℕ) (ns : List ℕ)
    → length (flat_words ns) ≤ fuel
    → All IsU32 ns
    → words_loop fuel (flat_words ns) ≡ ok ns
unfolding flat_words words_loop put_u32 get_u32
words_loop-flat_words fuel [] le all = refl
words_loop-flat_words zero (n ∷ ns) le all = absurd (omega arith)
words_loop-flat_words (suc fuel) (n ∷ ns) le (lt, all) =
    ap (λ m. words_loop fuel (flat_words ns) >>= (λ xs. ok (m ∷ xs))) (split_u32 n lt)
    ∙ ap (λ r. r >>= (λ xs. ok (n ∷ xs))) (words_loop-flat_words fuel ns (omega arith) all)
