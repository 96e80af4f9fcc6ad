-- ===== src/Docs/NgramRounds.antt =====
-- matchiter.go: the rounds of ngramDocIterator.candidates, and the hits that they depend on.
use zoekt_archived.Prelude.{
  ℕ, zero, suc, ◌+◌, ◌-◌, ◌%◌, ◌^◌, ◌≤◌, ◌<◌, ◌≡◌, refl, ap, sym, ◌∙◌, inl, inr, ◌⊎◌, Bool, ◌||◌,
  List, [], ◌∷◌, get_or, ltb, leb, ◌==◌, if◌then◌else◌, if-intro, arith,
}
use zoekt_archived.MatchTree.{Candidate, max_u32}
use zoekt_archived.Hits.{HitIterator}
use zoekt_archived.Hits.Laws.{IsHitIterator}
use zoekt_archived.Docs.NgramIter.{NgramIter, file_start, collect, hit_candidate}
use zoekt_archived.Docs.Candidates.{first_has, drop_first}

module _ {S : Type 0} {it : HitIterator S} {Ok : S → Type 0} {has : S → ℕ → Bool} {left : S → ℕ}
    (law : IsHitIterator it Ok has left) (lp rp : ℕ) (ends : List ℕ) (d : ℕ) where
  -- The iterator at document d.
  abbrev pub at_doc : S → NgramIter S
  at_doc s = record { left_pad = lp; right_pad = rp; iter = s; ends = ends; file_idx = d }

  abbrev pub low : ℕ
  low = file_start ends d + lp

  abbrev pub end : ℕ
  end = get_or ends d 0

  -- The round at a hit behind the left padding.
  abbrev keep : ℕ → List Candidate → List Candidate
  keep f rest =
      if ltb end ((f + rp) % 2 ^ 32)
      then rest
      else hit_candidate d ((f + (2 ^ 32 - file_start ends d) + (2 ^ 32 - lp)) % 2 ^ 32) ∷ rest

  module _ (small : low < max_u32) (fits : end < max_u32) where
    -- A round: it stops, passes a hit, or looks at one.
    pub collect-stop :
        (fuel : ℕ) (s0 s : S) → end ≤ it.first s → (collect it left (suc fuel) (at_doc s0) s).0 ≡ []
    unfolding collect
    collect-stop fuel s0 s le = ground arith

    collect-low :
        (fuel : ℕ) (s0 s : S)
        → it.first s < end
        → it.first s < low
        → (collect it left (suc fuel) (at_doc s0) s).0
          ≡ (collect it left fuel (at_doc s0) (it.next (it.first s) s)).0
    unfolding collect
    collect-low fuel s0 s lt below = ground arith

    collect-keep :
        (fuel : ℕ) (s0 s : S)
        → it.first s < end
        → low ≤ it.first s
        → (collect it left (suc fuel) (at_doc s0) s).0
          ≡ keep (it.first s) (collect it left fuel (at_doc s0) (it.next (it.first s) s)).0
    unfolding collect
    collect-keep fuel s0 s lt ge = ground arith

    le_or_lt : (a b : ℕ) → (a ≤ b) ⊎ (b < a)
    le_or_lt a b = ground arith

    -- The same hits behind the padding and in the file.
    abbrev pub Agree : S → S → Type 0
    Agree s t = (p : ℕ) → low ≤ p → p < end → has s p ≡ has t p

    place_cases : (f : ℕ) → (end ≤ f) ⊎ (((f < end) × (f < low)) ⊎ ((f < end) × (low ≤ f)))
    place_cases f = ground arith

    Agree-next : (s t : S) (f : ℕ) → Ok s → f < low → Agree s t → Agree (it.next f s) t
    Agree-next s t f ok lt agree =
        λ p ge p_lt. law.next_keeps s f p ok (omega arith) (omega arith) ∙ agree p ge p_lt

    Agree-both :
        (s t : S) (f : ℕ)
        → Ok s
        → Ok t
        → it.first s ≡ f
        → it.first t ≡ f
        → f < end
        → Agree s t
        → Agree (it.next f s) (it.next f t)
    Agree-both s t f ok ok_t here there lt agree p ge p_lt = elim (le_or_lt p f) [
      | inl le ↦
          ap (λ h. has (it.next h s) p) (sym here)
          ∙ drop_first law s p ok (omega (arith, here, le))
          ∙ sym (drop_first law t p ok_t (omega (arith, there, le)))
          ∙ ap (λ h. has (it.next h t) p) there
      | inr gt ↦
          law.next_keeps s f p ok gt (omega arith)
          ∙ agree p ge p_lt
          ∙ sym (law.next_keeps t f p ok_t gt (omega arith))
    ]

    -- Where two iterators agree, what is in one's first place is not before the other's.
    first_le :
        (s t : S)
        → Ok s
        → Ok t
        → it.first s < end
        → low ≤ it.first s
        → Agree s t
        → it.first t ≤ it.first s
    first_le s t ok ok_t lt ge agree =
        law.first_least t (it.first s) ok_t
          (sym (agree (it.first s) ge lt) ∙ first_has law s ok (omega arith))

    -- The candidates depend on the hits of the file behind the left padding only.
    pub collect_same :
        (k n m : ℕ) (s0 t0 s t : S)
        → n + m ≤ k
        → left s < n
        → left t < m
        → Ok s
        → Ok t
        → Agree s t
        → (collect it left n (at_doc s0) s).0 ≡ (collect it left m (at_doc t0) t).0
    collect_same k zero m s0 t0 s t bound en em ok ok_t agree = absurd (omega arith)
    collect_same k (suc n) zero s0 t0 s t bound en em ok ok_t agree = absurd (omega arith)
    collect_same zero (suc n) (suc m) s0 t0 s t bound en em ok ok_t agree = absurd (omega arith)
    collect_same (suc k) (suc n) (suc m) s0 t0 s t bound en em ok ok_t agree =
        let f = it.first s in
        let g = it.first t in
        elim (place_cases f) [
          | inr (inl (lt, below)) ↦
              collect-low n s0 s lt below
              ∙ collect_same k n (suc m) s0 t0 (it.next f s) t (omega arith)
                  (omega (arith, law.next_less s f ok (omega arith) (omega arith))) em
                  (law.next_ok s f ok) ok_t (Agree-next s t f ok below agree)
          | inl stop ↦ elim (place_cases g) [
            | inl stop_t ↦ collect-stop n s0 s stop ∙ sym (collect-stop m t0 t stop_t)
            | inr (inl (lt, below)) ↦
                collect_same k (suc n) m s0 t0 s (it.next g t) (omega arith) en
                  (omega (arith, law.next_less t g ok_t (omega arith) (omega arith))) ok
                  (law.next_ok t g ok_t)
                  (λ p ge p_lt.
                    sym (Agree-next t s g ok_t below (λ q a b. sym (agree q a b)) p ge p_lt))
                ∙ sym (collect-low m t0 t lt below)
            | inr (inr (lt, ge)) ↦
                absurd (omega (arith, first_le t s ok_t ok lt ge (λ q a b. sym (agree q a b))))
          ]
          | inr (inr (lt, ge)) ↦ elim (place_cases g) [
            | inl stop_t ↦ absurd (omega (arith, first_le s t ok ok_t lt ge agree))
            | inr (inl (lt_t, below)) ↦
                collect_same k (suc n) m s0 t0 s (it.next g t) (omega arith) en
                  (omega (arith, law.next_less t g ok_t (omega arith) (omega arith))) ok
                  (law.next_ok t g ok_t)
                  (λ p a b. sym (Agree-next t s g ok_t below (λ q a b. sym (agree q a b)) p a b))
                ∙ sym (collect-low m t0 t lt_t below)
            | inr (inr (lt_t, ge_t)) ↦
                let same : g ≡ f = omega (
                  arith,
                  first_le s t ok ok_t lt ge agree,
                  first_le t s ok_t ok lt_t ge_t (λ q a b. sym (agree q a b)),
                ) in
                collect-keep n s0 s lt ge
                ∙ ap (keep f) (
                    collect_same k n m s0 t0 (it.next f s) (it.next f t) (omega arith)
                      (omega (arith, law.next_less s f ok (omega arith) (omega arith)))
                      (omega (arith, law.next_less t f ok_t (omega arith) (omega arith)))
                      (law.next_ok s f ok) (law.next_ok t f ok_t)
                      (Agree-both s t f ok ok_t refl same lt agree))
                ∙ ap (λ h. keep h (collect it left m (at_doc t0) (it.next h t)).0) (sym same)
                ∙ sym (collect-keep m t0 t lt_t ge_t)
          ]
        ]

    -- The rounds keep the hits from the end of the file on.
    pub collect-has :
        (n : ℕ) (s0 s : S)
        → Ok s
        → Ok (collect it left n (at_doc s0) s).1
          × ((p : ℕ) → end ≤ p → has (collect it left n (at_doc s0) s).1 p ≡ has s p)
    unfolding collect
    collect-has zero s0 s ok = (ok, λ p ge. refl)
    collect-has (suc n) s0 s ok =
        let P = λ (r : List Candidate × S). Ok r.1 × ((p : ℕ) → end ≤ p → has r.1 p ≡ has s p) in
        let f = it.first s in
        let rest = collect it left n (at_doc s0) (it.next f s) in
        let taken : List Candidate × S = (
          hit_candidate d ((f + (2 ^ 32 - file_start ends d) + (2 ^ 32 - lp)) % 2 ^ 32) ∷ rest.0,
          rest.1,
        ) in
        let outside = ltb f ((lp + file_start ends d) % 2 ^ 32) || ltb end ((f + rp) % 2 ^ 32) in
        if-intro P ((f == max_u32) || leb end f) ([], s) (if outside then rest else taken)
          (λ _. (ok, λ p ge. refl))
          (λ e.
            let lt : f < end = ground arith in
            let (good, same) = collect-has n s0 (it.next f s) (law.next_ok s f ok) in
            let kept : (p : ℕ) → end ≤ p → has rest.1 p ≡ has s p =
              λ p ge. same p ge ∙ law.next_keeps s f p ok (omega arith) (omega arith) in
            if-intro P outside rest taken (λ _. (good, kept)) (λ _. (good, kept)))
