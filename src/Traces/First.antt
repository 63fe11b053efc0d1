-- ===== src/Traces/First.antt =====
-- What the summary of model/compare_traces.py says of the first divergence.
use hft_rtl.Prelude.{
  ℕ, suc, ◌+◌, ◌≡◌, inl, inr, refl, ap, ◌∙◌, true, Option, none, some, List, [], ◌∷◌, arith, ltb,
  leb, Text, length, Bool-cases, All, take,
}
use hft_rtl.Prelude.Result.{Result, ok, raise}
use hft_rtl.Prelude.Int.{ℤ}
use hft_rtl.Traces.Json.{Value, Fields, fields_eq}
use hft_rtl.Traces.{
  fine, golden, rtl, Detail, Outcome, noted, pair_detail, end_detail, mismatched, no_outcome,
  read_lines, check_line, compare_from, compare_files,
}
use hft_rtl.Traces.Steps.{compared}
use hft_rtl.Traces.Match.{Matches}

-- What the summary says of the first divergence.
abbrev pub First : Type 0
First = Option Detail × ℕ

abbrev first_of : Outcome → First
first_of o = (o.first_mismatch, o.matched_before_first)

mismatched-first_some :
    (max index : ℕ) (g r : Text) (o : Outcome) (d : Detail)
    → o.first_mismatch ≡ some d
    → first_of (mismatched max index g r o) ≡ first_of o
mismatched-first_some max index g r o d e = elim (Bool-cases (ltb (length o.reports) max)) [
  | inl more ↦ rw (e, more) refl
  | inr full ↦ rw (e, full) refl
]

mismatched-first_none :
    (max index : ℕ) (g r : Text) (o : Outcome)
    → o.first_mismatch ≡ none
    → first_of (mismatched max index g r o) ≡ (some (pair_detail index g r), o.compared)
mismatched-first_none max index g r o e = elim (Bool-cases (ltb (length o.reports) max)) [
  | inl more ↦ rw (e, more) refl
  | inr full ↦ rw (e, full) refl
]

abbrev noted_at : Detail → ℕ → First
noted_at detail n = (some detail, n)

-- The computation ends in a result with that first divergence.
abbrev Notes : Result Outcome → First → Type 0
Notes (ok o) first = first_of o ≡ first
Notes (raise e) first = ⊥

Notes-eq : (result : Result Outcome) {f f' : First} → Notes result f → f ≡ f' → Notes result f'
Notes-eq (ok o) h e = h ∙ e
Notes-eq (raise x) h e = absurd h

module _ (int_of_text : Text → Option ℤ) (loads : Text → Result Value) where
  -- The line is a well-formed book update.
  abbrev pub IsGood : Text → Type 0
  IsGood line = (a : Fields) × (check_line int_of_text loads line ≡ fine a)

  -- What is noted stays, if no line is malformed.
  compare_from-keeps :
      (max index : ℕ) (o : Outcome) (gs rs : List Text) (d : Detail)
      → All IsGood gs
      → All IsGood rs
      → o.first_mismatch ≡ some d
      → Notes (compare_from int_of_text loads max index o gs rs) (first_of o)
  unfolding compare_from
  compare_from-keeps max index o [] [] d hg hr e = refl
  compare_from-keeps max index o [] (r ∷ rs) d hg hr e = rw e refl
  compare_from-keeps max index o (g ∷ gs) [] d hg hr e = rw e refl
  compare_from-keeps max index o (g ∷ gs) (r ∷ rs) d ((a, eg), hg) ((b, er), hr) e =
      let step = compared int_of_text loads max index o g r gs rs a eg b er in
      let o' = mismatched max index g r o in
      let stays = mismatched-first_some max index g r o d e in
      let still : o'.first_mismatch ≡ some d = ap (λ (f : First). f.0) stays ∙ e in
      elim (Bool-cases (fields_eq a b)) [
        | inl same ↦
            rw (step, same)
              (compare_from-keeps max (index + 1) (record o { compared = o.compared + 1 }) gs rs d
                hg hr e)
        | inr other ↦ elim (Bool-cases (leb max o'.mismatches)) [
          | inl enough ↦ rw (step, other, enough) stays
          | inr fewer ↦
              rw (step, other, fewer, ← stays)
                (compare_from-keeps max (index + 1) o' gs rs d hg hr still)
        ]
      ]

  -- The traces match through `k` lines and not through one more.
  abbrev pub DivergesAt : ℕ → List Text → List Text → Type 0
  DivergesAt k gs rs =
      Matches int_of_text loads (take k gs) (take k rs)
      × ¬ Matches int_of_text loads (take (suc k) gs) (take (suc k) rs)

  abbrev Reported : ℕ → Result Outcome → List Text → List Text → Type 0
  Reported index result gs rs =
      (o : Outcome) (d : Detail)
      → result ≡ ok o
      → o.first_mismatch ≡ some d
      → (k : ℕ) × (d.index ≡ index + k) × (o.matched_before_first ≡ index + k) × DivergesAt k gs rs

  here :
      (index : ℕ) (result : Result Outcome) (detail : Detail) (gs rs : List Text)
      → Notes result (some detail, index)
      → detail.index ≡ index
      → DivergesAt 0 gs rs
      → Reported index result gs rs
  here index (raise e) detail gs rs noted at diverges o d is first = absurd noted
  here index (ok o') detail gs rs noted at diverges o d is first =
      let same : o' ≡ o = cc in
      let said : o'.first_mismatch ≡ some detail = ap (λ (f : First). f.0) noted in
      let count : o'.matched_before_first ≡ index = ap (λ (f : First). f.1) noted in
      let noted_now : o.first_mismatch ≡ some detail = rw (← same) said in
      let equal : detail ≡ d = cc in
      let count_now : o.matched_before_first ≡ index = rw (← same) count in
      (0, rw (← equal) (omega (arith, at)), omega (arith, count_now), diverges)

  compare_from-Reported :
      (max index : ℕ) (o : Outcome) (gs rs : List Text)
      → All IsGood gs
      → All IsGood rs
      → o.first_mismatch ≡ none
      → o.compared ≡ index
      → Reported index (compare_from int_of_text loads max index o gs rs) gs rs
  unfolding compare_from
  compare_from-Reported max index o [] [] hg hr e c = λ o' d is first.
      let same : o ≡ o' = cc in let still : o'.first_mismatch ≡ none = rw (← same) e in cc
  compare_from-Reported max index o [] (r ∷ rs) hg hr e c =
      here index (compare_from int_of_text loads max index o [] (r ∷ rs))
        (end_detail golden index none (some r)) [] (r ∷ rs) (rw (e, c) refl) refl (tt, λ h. h)
  compare_from-Reported max index o (g ∷ gs) [] hg hr e c =
      here index (compare_from int_of_text loads max index o (g ∷ gs) [])
        (end_detail rtl index (some g) none) (g ∷ gs) [] (rw (e, c) refl) refl (tt, λ h. h)
  compare_from-Reported max index o (g ∷ gs) (r ∷ rs) ((a, eg), hg) ((b, er), hr) e c =
      let step = compared int_of_text loads max index o g r gs rs a eg b er in
      elim (Bool-cases (fields_eq a b)) [
        | inl same ↦ λ o' d is first.
            let (k, at, matched, (m, n)) =
              compare_from-Reported max (index + 1) (record o { compared = o.compared + 1 }) gs rs
                hg hr e (omega (arith, c)) o' d (rw (step, same) at is) first in
            (
              suc k,
              omega (arith, at),
              omega (arith, matched),
              (((a, b, eg, er, same), m), λ (s, h). n h),
            )
        | inr other ↦
            let o' = mismatched max index g r o in
            let fresh : first_of o' ≡ noted_at (pair_detail index g r) index =
              mismatched-first_none max index g r o e ∙ ap (noted_at (pair_detail index g r)) c in
            let noted_here : o'.first_mismatch ≡ some (pair_detail index g r) =
              ap (λ (f : First). f.0) fresh in
            let apart : ¬ Matches int_of_text loads (g ∷ []) (r ∷ []) =
              λ ((x, y, eg', er', same), h).
                let left : x ≡ a = cc in
                let right : y ≡ b = cc in
                let equal : fields_eq a b ≡ true = rw (← left, ← right) same in cc in
            here index (compare_from int_of_text loads max index o (g ∷ gs) (r ∷ rs))
              (pair_detail index g r) (g ∷ gs) (r ∷ rs)
              (elim (Bool-cases (leb max o'.mismatches)) [
                | inl enough ↦ rw (step, other, enough) fresh
                | inr fewer ↦
                    rw (step, other, fewer)
                      (Notes-eq (compare_from int_of_text loads max (index + 1) o' gs rs)
                        (compare_from-keeps max (index + 1) o' gs rs (pair_detail index g r) hg hr
                          noted_here)
                        fresh)
              ])
              refl (tt, apart)
      ]

  -- If every line of both traces that is not blank is a well-formed book update and the comparison
  -- ends with a first divergence in its summary, then the index of that divergence is the number of
  -- lines through which the traces match, which do not match through one more, and
  -- `matched_before_first` is that number.
  pub compare_files-First :
      (max : ℕ) (gs rs : List Text) (o : Outcome) (d : Detail)
      → All IsGood (read_lines gs)
      → All IsGood (read_lines rs)
      → compare_files int_of_text loads max gs rs ≡ ok o
      → o.first_mismatch ≡ some d
      → (o.matched_before_first ≡ d.index) × DivergesAt d.index (read_lines gs) (read_lines rs)
  unfolding compare_files
  compare_files-First max gs rs o d hg hr is first =
      let (k, at, matched, diverges) =
        compare_from-Reported max 0 no_outcome (read_lines gs) (read_lines rs) hg hr refl refl o d
          is first in
      let same : k ≡ d.index = omega (arith, at) in
      (omega (arith, at, matched), rw (← same) diverges)
