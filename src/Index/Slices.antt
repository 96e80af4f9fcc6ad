-- ===== src/Index/Slices.antt =====
-- indexfile_linux.go: Read returns the bytes that stand between two others.
use zoekt_archived.Prelude.{
  ℕ, ◌+◌, ◌-◌, ◌%◌, ◌^◌, ◌<◌, ◌≡◌, refl, ap, ◌∙◌, [], ◌∷◌, ◌++◌, Bytes, length, length-append, take,
  drop, arith,
}
use zoekt_archived.Bits.DeltasLaws.{drop-append}
use zoekt_archived.Index.File.{ok, mmaped_read}

pub take-append : (xs ys : Bytes) → take (length xs) (xs ++ ys) ≡ xs
take-append [] ys = refl
take-append (x ∷ xs) ys = ap (λ zs. x ∷ zs) (take-append xs ys)

mid :
    (before item after : Bytes) (off end : ℕ)
    → off ≡ length before
    → end - off ≡ length item
    → take (end - off) (drop off (before ++ (item ++ after))) ≡ item
mid before item after off end p q =
    ap (λ n. take n (drop off (before ++ (item ++ after)))) q
    ∙ ap (λ n. take (length item) (drop n (before ++ (item ++ after)))) p
    ∙ ap (take (length item)) (drop-append before (item ++ after))
    ∙ take-append item after

pub mmaped_read-append :
    (before item after : Bytes) (off sz : ℕ)
    → length (before ++ (item ++ after)) < 2 ^ 32
    → off ≡ length before
    → sz ≡ length item
    → mmaped_read (before ++ (item ++ after)) off sz ≡ ok item
unfolding mmaped_read
mmaped_read-append before item after off sz lt p q =
    let a = length-append before (item ++ after) in
    let b = length-append item after in
    let size : length (before ++ (item ++ after)) ≡ length before + (length item + length after) =
      omega (arith, a, b) in
    let slice = mid before item after off ((off + sz) % 2 ^ 32) p (omega arith) in
    ground (arith, slice)
