-- ===== src/Traces/Match.antt =====
-- When model/compare_traces.py reports a match.
use hft_rtl.Prelude.{
  ℕ, ◌+◌, ◌≤◌, ◌≡◌, ◌∙◌, sym, ◌↔◌, inl, inr, refl, ap, true, Option, none, some, List, [], ◌∷◌,
  arith, ltb, leb, Text, length, Bool-cases,
}
use hft_rtl.Prelude.Result.{Result, raise, ok, >>=-eq-ok}
use hft_rtl.Prelude.Int.{ℤ}
use hft_rtl.Traces.Json.{Value, Fields, fields_eq}
use hft_rtl.Traces.{
  fine, Detail, Outcome, noted, mismatched, no_outcome, read_lines, check_line, compare_from,
  compare_files, matching, verdict, Exit, exit_with, main,
}
use hft_rtl.Traces.Steps.{turn, compared}

pub noted-mismatches :
    (detail : Detail) (o : Outcome) (first : Option Detail)
    → (noted detail o first).mismatches ≡ o.mismatches + 1
noted-mismatches detail o none = refl
noted-mismatches detail o (some d) = refl

pub mismatched-mismatches :
    (max index : ℕ) (g r : Text) (o : Outcome)
    → (mismatched max index g r o).mismatches ≡ o.mismatches + 1
mismatched-mismatches max index g r o = elim (Bool-cases (ltb (length o.reports) max)) [
  | inl more ↦ rw more (noted-mismatches _ o o.first_mismatch)
  | inr full ↦ rw full (noted-mismatches _ o o.first_mismatch)
]

-- The comparison ends without an exception and without a divergence.
abbrev IsClean : Result Outcome → Type 0
IsClean (ok o) = o.mismatches ≡ 0
IsClean (raise e) = ⊥

module _ (int_of_text : Text → Option ℤ) (loads : Text → Result Value) where
  -- Both lines are well-formed, and what is left of them after normalization is equal.
  abbrev pub IsSame : Text → Text → Type 0
  IsSame g r =
      (a b : Fields) × (check_line int_of_text loads g ≡ fine a)
      × (check_line int_of_text loads r ≡ fine b)
      × (fields_eq a b ≡ true)

  -- The traces line up one to one.
  abbrev pub Matches : List Text → List Text → Type 0
  Matches [] [] = Unit
  Matches [] (r ∷ rs) = ⊥
  Matches (g ∷ gs) [] = ⊥
  Matches (g ∷ gs) (r ∷ rs) = IsSame g r × Matches gs rs

  IsClean-none :
      (max index : ℕ) (o : Outcome) (gs rs : List Text)
      → IsClean (compare_from int_of_text loads max index o gs rs)
      → o.mismatches ≡ 0
  unfolding compare_from
  IsClean-none max index o [] [] h = h
  IsClean-none max index o [] (r ∷ rs) h =
      absurd (omega (arith, h, noted-mismatches _ o o.first_mismatch))
  IsClean-none max index o (g ∷ gs) [] h =
      absurd (omega (arith, h, noted-mismatches _ o o.first_mismatch))
  IsClean-none max index o (g ∷ gs) (r ∷ rs) h =
      turn int_of_text loads max index o g r gs rs (λ m. IsClean m → o.mismatches ≡ 0)
        (λ which line why one. absurd (omega (arith, one))) (λ e why raised. absurd raised)
        (λ a b eg er same.
          IsClean-none max (index + 1) (record o { compared = o.compared + 1 }) gs rs)
        (λ a b eg er other.
          let more = mismatched-mismatches max index g r o in
          elim (Bool-cases (leb max (mismatched max index g r o).mismatches)) [
            | inl enough ↦ rw enough (λ clean. absurd (omega (arith, more, clean)))
            | inr fewer ↦ rw fewer (λ clean. absurd (
                omega (
                  arith,
                  more,
                  IsClean-none max (index + 1) (mismatched max index g r o) gs rs clean,
                )))
          ])
        h

  -- Lines that line up are all counted, and nothing else happens.
  pub compare_from-Matches :
      (max index : ℕ) (o : Outcome) (gs rs : List Text)
      → Matches gs rs
      → compare_from int_of_text loads max index o gs rs
        ≡ ok (record o { compared = o.compared + length gs })
  unfolding compare_from
  compare_from-Matches max index o [] [] h =
      let none_more : o.compared + 0 ≡ o.compared = omega arith in rw none_more refl
  compare_from-Matches max index o [] (r ∷ rs) h = absurd h
  compare_from-Matches max index o (g ∷ gs) [] h = absurd h
  compare_from-Matches max index o (g ∷ gs) (r ∷ rs) ((a, b, eg, er, same), h) =
      let count : o.compared + 1 + length gs ≡ o.compared + length (g ∷ gs) = omega arith in
      let rest =
        compare_from-Matches max (index + 1) (record o { compared = o.compared + 1 }) gs rs h in
      rw (compared int_of_text loads max index o g r gs rs a eg b er, same, rest, count) refl

  Matches-of_IsClean :
      (max index : ℕ) (o : Outcome) (gs rs : List Text)
      → IsClean (compare_from int_of_text loads max index o gs rs)
      → Matches gs rs
  unfolding compare_from
  Matches-of_IsClean max index o [] [] h = tt
  Matches-of_IsClean max index o [] (r ∷ rs) h =
      absurd (omega (arith, h, noted-mismatches _ o o.first_mismatch))
  Matches-of_IsClean max index o (g ∷ gs) [] h =
      absurd (omega (arith, h, noted-mismatches _ o o.first_mismatch))
  Matches-of_IsClean max index o (g ∷ gs) (r ∷ rs) h =
      turn int_of_text loads max index o g r gs rs (λ m. IsClean m → Matches (g ∷ gs) (r ∷ rs))
        (λ which line why one. absurd (omega (arith, one))) (λ e why raised. absurd raised)
        (λ a b eg er same clean. (
          (a, b, eg, er, same),
          Matches-of_IsClean max (index + 1) (record o { compared = o.compared + 1 }) gs rs clean,
        ))
        (λ a b eg er other.
          let more = mismatched-mismatches max index g r o in
          elim (Bool-cases (leb max (mismatched max index g r o).mismatches)) [
            | inl enough ↦ rw enough (λ clean. absurd (omega (arith, more, clean)))
            | inr fewer ↦ rw fewer (λ clean. absurd (
                omega (
                  arith,
                  more,
                  IsClean-none max (index + 1) (mismatched max index g r o) gs rs clean,
                )))
          ])
        h

  verdict-matching :
      (min_updates n : ℕ) (o : Outcome)
      → verdict min_updates o ≡ exit_with 0 (matching n)
      → (o.mismatches ≡ 0) × (o.compared ≡ n) × (min_updates ≤ n)
  unfolding verdict
  verdict-matching min_updates n o h = ground arith

  -- Only a match has the exit code 0.
  verdict_zero :
      (min_updates : ℕ) (o : Outcome)
      → (verdict min_updates o).code ≡ 0
      → verdict min_updates o ≡ exit_with 0 (matching o.compared)
  unfolding verdict
  verdict_zero min_updates o h = ground arith

  module _ (max min_updates : ℕ) (gs rs : List Text) where
    matching_iff :
        (n : ℕ)
        → (main int_of_text loads max min_updates (some gs) (some rs)
            ≡ ok (exit_with 0 (matching n)))
          ↔ (Matches (read_lines gs) (read_lines rs)
              × (length (read_lines gs) ≡ n)
              × (min_updates ≤ n))
    unfolding main compare_files verdict
    matching_iff n = (
      λ h.
          let (o, is, v) =
            >>=-eq-ok
              (compare_from int_of_text loads max 0 no_outcome (read_lines gs) (read_lines rs))
              (λ o. ok (verdict min_updates o)) h in
          let said : verdict min_updates o ≡ exit_with 0 (matching n) = cc in
          let (clean, count, enough) = verdict-matching min_updates n o said in
          let m =
            Matches-of_IsClean max 0 no_outcome (read_lines gs) (read_lines rs) (rw is clean) in
          let all = compare_from-Matches max 0 no_outcome (read_lines gs) (read_lines rs) m in
          let same : record no_outcome { compared = 0 + length (read_lines gs) } ≡ o = cc in
          (m, omega (arith, ap (λ (k : Outcome). k.compared) same, count), enough),
      λ (m, count, enough).
          rw (compare_from-Matches max 0 no_outcome (read_lines gs) (read_lines rs) m, verdict)
            (ground arith),
    )

    -- A run that ends with the exit code 0.
    abbrev pub Passes : Type 0
    Passes =
        (e : Exit) × (main int_of_text loads max min_updates (some gs) (some rs) ≡ ok e)
        × (e.code ≡ 0)

    Passes_matching :
        Passes
        → (n : ℕ) × (main int_of_text loads max min_updates (some gs) (some rs)
            ≡ ok (exit_with 0 (matching n)))
    unfolding main
    Passes_matching (e, is, zero_code) =
        let (o, run, v) =
          >>=-eq-ok (compare_files int_of_text loads max gs rs) (λ o. ok (verdict min_updates o))
            is in
        let said : verdict min_updates o ≡ e = cc in
        let code : (verdict min_updates o).code ≡ 0 = rw said zero_code in
        (o.compared, is ∙ ap ok (sym said ∙ verdict_zero min_updates o code))

    -- The program prints a match of `n` updates and exits with code 0 exactly if the lines of the two
    -- files that are not blank line up one to one, each well-formed and equal to its partner after
    -- normalization, there are `n` of them in each file, and `n` is at least `min_updates`; and it
    -- exits with code 0 exactly if they line up so, whatever their number, as long as it is at least
    -- `min_updates`.
    pub main-Matches :
        (n : ℕ)
        → ((main int_of_text loads max min_updates (some gs) (some rs)
              ≡ ok (exit_with 0 (matching n)))
            ↔ (Matches (read_lines gs) (read_lines rs)
                × (length (read_lines gs) ≡ n)
                × (min_updates ≤ n)))
          × (Passes
              ↔ (Matches (read_lines gs) (read_lines rs) × (min_updates ≤ length (read_lines gs))))
    main-Matches n = (
      matching_iff n,
      (
        λ passes.
            let (k, is) = Passes_matching passes in
            let (m, count, enough) = (matching_iff k).0 is in (m, omega (arith, count, enough)),
        λ (m, enough). (
          exit_with 0 (matching (length (read_lines gs))),
          (matching_iff (length (read_lines gs))).1 (m, refl, enough),
          refl,
        ),
      ),
    )
