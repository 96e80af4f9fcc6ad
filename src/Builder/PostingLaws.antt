-- ===== src/Builder/PostingLaws.antt =====
-- indexbuilder.go: the postings of an n-gram are the offsets at which it occurs.
use mathlib.Core.Path.{subst}
use zoekt_archived.Prelude.{
  ℕ, zero, suc, ◌+◌, ◌-◌, ◌%◌, ◌^◌, ◌<◌, ◌≡◌, refl, ap, sym, ◌∙◌, inl, inr, Bool, true, false, List,
  [], ◌∷◌, ◌++◌, append_assoc, append-nil, map, Bytes, drop, ltb, ◌==◌, if◌then◌else◌, Bool-cases,
  arith,
}
use zoekt_archived.Bits.Utf8.{decode_rune}
use zoekt_archived.Bits.Ngrams.{
  Runes, RuneNgramOff, entry, runes_to_ngram, split_loop, split_ngrams,
}
use zoekt_archived.Bits.Deltas.{Varint, delta_of, put_deltas}
use zoekt_archived.Builder.Map.{find, find-put}
use zoekt_archived.Builder.Postings.{
  PostingsBuilder, RuneScan, post, sample_rune, scan_rune, rune_loop, shift_gram,
}

-- An n-gram and the offset, in runes, at which it occurs.
abbrev pub Gram : Type 0
Gram = ℕ × ℕ

-- The offsets of one n-gram, in order.
unfoldable pub offsets_of : ℕ → List Gram → List ℕ
offsets_of g [] = []
offsets_of g ((h, o) ∷ grams) = let rest = offsets_of g grams in if h == g then o ∷ rest else rest

unfoldable pub last_of : ℕ → List ℕ → ℕ
last_of d [] = d
last_of d (x ∷ xs) = last_of x xs

last_of-append : (d x : ℕ) (xs : List ℕ) → last_of d (xs ++ x ∷ []) ≡ x
unfolding last_of
last_of-append d x [] = refl
last_of-append d x (y ∷ ys) = last_of-append y x ys

offsets_of-append :
    (g h o : ℕ) (grams : List Gram)
    → offsets_of g (grams ++ (h, o) ∷ [])
      ≡ (if h == g then offsets_of g grams ++ o ∷ [] else offsets_of g grams)
unfolding offsets_of
offsets_of-append g h o [] = ground arith
offsets_of-append g h o ((k, p) ∷ grams) = ground (arith, offsets_of-append g h o grams)

module _ (v : Varint) where
  put_deltas-append :
      (last p : ℕ) (ps : List ℕ)
      → put_deltas v last (ps ++ p ∷ [])
        ≡ put_deltas v last ps ++ v.put_uvarint (delta_of (last_of last ps) p)
  unfolding put_deltas last_of
  put_deltas-append last p [] = append-nil (v.put_uvarint (delta_of last p))
  put_deltas-append last p (x ∷ xs) =
      ap (λ bs. v.put_uvarint (delta_of last x) ++ bs) (put_deltas-append x p xs)
      ∙ sym (
          append_assoc (v.put_uvarint (delta_of last x)) (put_deltas v x xs)
            (v.put_uvarint (delta_of (last_of x xs) p)))

  -- The builder holds exactly the given occurrences: for each n-gram its offsets as deltas, and the last one.
  unfoldable pub IsPosted : PostingsBuilder → List Gram → Type 0
  unfolding find put_deltas offsets_of last_of
  IsPosted s grams =
      (g : ℕ)
      → (find g [] s.postings ≡ put_deltas v 0 (offsets_of g grams))
        × (find g 0 s.last_offsets ≡ last_of 0 (offsets_of g grams))

  post-IsPosted :
      (s : PostingsBuilder) (gram : Runes) (o : ℕ) (grams : List Gram)
      → IsPosted s grams
      → IsPosted (post v s gram o) (grams ++ (runes_to_ngram gram, o) ∷ [])
  unfolding post IsPosted
  post-IsPosted s gram o grams posted g =
      let ng = runes_to_ngram gram in
      let bytes = find ng [] s.postings ++ v.put_uvarint (delta_of (find ng 0 s.last_offsets) o) in
      let (here, last) = posted ng in
      let (old, old_last) = posted g in
      let p = find-put ng g [] bytes s.postings in
      let q = find-put ng g 0 o s.last_offsets in
      let all = offsets_of-append g ng o grams in
      elim (Bool-cases (ng == g)) [
        | inl same ↦
            let eq : ng ≡ g = ground arith in
            let here_g = here ∙ ap (λ k. put_deltas v 0 (offsets_of k grams)) eq in
            let last_g = last ∙ ap (λ k. last_of 0 (offsets_of k grams)) eq in
            let longer : offsets_of g (grams ++ (ng, o) ∷ []) ≡ offsets_of g grams ++ o ∷ [] =
              ground (arith, all, same) in
            (
              p
                  ∙ ap (λ b. if b then bytes else find g [] s.postings) same
                  ∙ (λ i. here_g i ++ v.put_uvarint (delta_of (last_g i) o))
                  ∙ sym (put_deltas-append 0 o (offsets_of g grams))
                  ∙ ap (put_deltas v 0) (sym longer),
              q
                  ∙ ap (λ b. if b then o else find g 0 s.last_offsets) same
                  ∙ sym (last_of-append 0 o (offsets_of g grams))
                  ∙ ap (last_of 0) (sym longer),
            )
        | inr other ↦
            let equal : offsets_of g (grams ++ (ng, o) ∷ []) ≡ offsets_of g grams =
              ground (arith, all, other) in
            (
              p
                  ∙ ap (λ b. if b then bytes else find g [] s.postings) other
                  ∙ old
                  ∙ ap (put_deltas v 0) (sym equal),
              q
                  ∙ ap (λ b. if b then o else find g 0 s.last_offsets) other
                  ∙ old_last
                  ∙ ap (last_of 0) (sym equal),
            )
      ]

-- The n-grams of a text from its third rune on, with the offset of the first of their runes, where `base`
-- runes stand before the text: the entries of splitNGrams.
unfoldable pub gram_of : ℕ → RuneNgramOff → Gram
gram_of base e = (e.ngram, (base + e.rune_off + (2 ^ 32 - 2)) % 2 ^ 32)

unfoldable pub grams_of : ℕ → Bytes → List Gram
unfolding split_ngrams gram_of
grams_of base text = map (gram_of base) (split_ngrams text)

module _ (v : Varint) where
  rune_count-scan_rune :
      (r : ℕ × ℕ) (t : RuneScan) → (scan_rune v r t).builder.rune_count ≡ t.builder.rune_count
  unfolding scan_rune
  rune_count-scan_rune (c, sz) t = ground arith

  -- What a round adds, by the index of its rune.
  new_grams : ℕ → Runes → ℕ → List Gram
  new_grams base gram k =
      if ltb (k + 1) 3
      then []
      else (runes_to_ngram gram, (base + k % 2 ^ 32 + (2 ^ 32 - 2)) % 2 ^ 32) ∷ []

  scan_rune-IsPosted :
      (c sz : ℕ) (t : RuneScan) (grams : List Gram)
      → t.rune_index < 2 ^ 32
      → IsPosted v t.builder grams
      → IsPosted v
          (scan_rune v (c, sz) t).builder
          (grams ++ new_grams t.builder.rune_count (shift_gram t.rune_gram c) t.rune_index)
  unfolding scan_rune new_grams IsPosted
  scan_rune-IsPosted c sz t grams short posted =
      let k = t.rune_index in
      let gram = shift_gram t.rune_gram c in
      let s : PostingsBuilder = record t.builder {
        is_plain_ascii = if ltb 1 sz then false else t.builder.is_plain_ascii;
      } in
      let sampled = sample_rune v s k t.byte_count in
      let off = (t.builder.rune_count + k + (2 ^ 32 - 2)) % 2 ^ 32 in
      let off' = (t.builder.rune_count + k % 2 ^ 32 + (2 ^ 32 - 2)) % 2 ^ 32 in
      let same : off ≡ off' = omega arith in
      let ng = runes_to_ngram gram in
      let test : ltb k 2 ≡ ltb (k + 1) 3 = ground arith in
      let added : Bool → List Gram = λ b. if b then [] else (ng, off') ∷ [] in
      let by_test : IsPosted v (if ltb k 2 then sampled else post v sampled gram off)
          (grams ++ added (ltb k 2)) =
        elim (ltb k 2)
          as (λ b. IsPosted v (if b then sampled else post v sampled gram off) (grams ++ added b)) [
            | true ↦ subst (IsPosted v sampled) (sym (append-nil grams)) posted
            | false ↦
                subst (λ o. IsPosted v (post v sampled gram off) (grams ++ (ng, o) ∷ [])) same
                  (post-IsPosted v sampled gram off grams posted)
          ] in
      subst
        (λ b. IsPosted v (if ltb k 2 then sampled else post v sampled gram off) (grams ++ added b))
        test by_test

  append_if :
      (base k : ℕ) (gram : Runes) (e : RuneNgramOff) (grams : List Gram) (rest : List RuneNgramOff)
      → gram_of base e ≡ (runes_to_ngram gram, (base + k % 2 ^ 32 + (2 ^ 32 - 2)) % 2 ^ 32)
      → (grams ++ new_grams base gram k) ++ map (gram_of base) rest
        ≡ grams ++ map (gram_of base) (if ltb (k + 1) 3 then rest else e ∷ rest)
  unfolding new_grams
  append_if base k gram e grams rest same =
      let x : Gram = (runes_to_ngram gram, (base + k % 2 ^ 32 + (2 ^ 32 - 2)) % 2 ^ 32) in
      elim (ltb (k + 1) 3)
        as (λ b.
          (grams ++ (if b then [] else x ∷ [])) ++ map (gram_of base) rest
          ≡ grams ++ map (gram_of base) (if b then rest else e ∷ rest)) [
            | true ↦ append_assoc grams [] (map (gram_of base) rest)
            | false ↦
                append_assoc grams (x ∷ []) (map (gram_of base) rest)
                ∙ ap (λ y. grams ++ y ∷ map (gram_of base) rest) (sym same)
          ]

  pub rune_loop-IsPosted :
      (fuel : ℕ) (text : Bytes) (t : RuneScan) (grams : List Gram) (offs : Runes) (i : ℕ)
      → t.rune_index + fuel < 2 ^ 32
      → IsPosted v t.builder grams
      → IsPosted v (rune_loop v fuel text t).builder (
          grams
          ++ map
              (gram_of t.builder.rune_count)
              (split_loop fuel text t.rune_gram offs i t.rune_index))
  unfolding rune_loop split_loop gram_of
  rune_loop-IsPosted fuel [] t grams offs i short posted =
      subst (IsPosted v t.builder) (sym (append-nil grams)) posted
  rune_loop-IsPosted zero (c ∷ cs) t grams offs i short posted =
      subst (IsPosted v t.builder) (sym (append-nil grams)) posted
  rune_loop-IsPosted (suc fuel) (c ∷ cs) t grams offs i short posted =
      let r = decode_rune (c ∷ cs) in
      let rest = drop r.1 (c ∷ cs) in
      let t' = scan_rune v r t in
      let k = t.rune_index in
      let base = t.builder.rune_count in
      let gram = shift_gram t.rune_gram r.0 in
      let end = (i + r.1) % 2 ^ 32 in
      let offs' : Runes = (offs.1.0, (offs.1.1, i)) in
      let later : ℕ → List RuneNgramOff = λ n. split_loop fuel rest gram offs' end n in
      let index : (k + 1) % 2 ^ 32 ≡ k + 1 = omega arith in
      let final = (rune_loop v fuel rest t').builder in
      let whole =
        rune_loop-IsPosted fuel rest t' (grams ++ new_grams base gram k) offs' end (omega arith)
          (scan_rune-IsPosted r.0 r.1 t grams (omega arith) posted) in
      let counted =
        subst
          (λ n.
            IsPosted v final
              ((grams ++ new_grams base gram k) ++ map (gram_of n) (later ((k + 1) % 2 ^ 32))))
          (rune_count-scan_rune r t) whole in
      let indexed =
        subst
          (λ n. IsPosted v final ((grams ++ new_grams base gram k) ++ map (gram_of base) (later n)))
          index counted in
      subst (IsPosted v final)
        (append_if base k gram (entry gram offs.1.0 end k) grams (later (k + 1)) refl) indexed
