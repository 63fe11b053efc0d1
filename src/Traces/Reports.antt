-- ===== src/Traces/Reports.antt =====
-- How many divergences model/compare_traces.py reports, and when it ends in an exception.
use hft_rtl.Prelude.{
  ℕ, ◌+◌, ◌<◌, ◌≤◌, ◌≡◌, inl, inr, refl, ◌∙◌, true, Option, none, some, List, [], ◌∷◌, ◌++◌, arith,
  ltb, leb, Text, length, length-append, get_elem?, Bool-cases, All,
}
use hft_rtl.Prelude.Result.{Error, Result, IfOk, ok, Returns}
use hft_rtl.Prelude.Int.{ℤ}
use hft_rtl.Traces.Json.{Value}
use hft_rtl.Traces.{
  Checked, uncaught, golden, rtl, Detail, Outcome, noted, add_report, mismatched, pair_detail,
  end_detail, no_outcome, read_lines, check_line, compare_from, compare_files,
}
use hft_rtl.Traces.Steps.{Settled, turn}

-- Every divergence that is counted is reported, and the first one is noted.
abbrev pub IsTold : Outcome → Type 0
IsTold o = (length o.reports ≡ o.mismatches) × (get_elem? o.reports 0 ≡ o.first_mismatch)

abbrev IsToldWithin : ℕ → Outcome → Type 0
IsToldWithin max o = IsTold o × (o.mismatches ≤ max)

add_first :
    (reports : List Detail) (detail : Detail) (first : Option Detail) (o : Outcome)
    → get_elem? reports 0 ≡ first
    → o.first_mismatch ≡ first
    → get_elem? (reports ++ detail ∷ []) 0 ≡ (noted detail o first).first_mismatch
add_first [] detail none o h e = refl
add_first [] detail (some d) o h e = cc
add_first (r ∷ reports) detail none o h e = cc
add_first (r ∷ reports) detail (some d) o h e = cc

add_report-IsTold :
    (max : ℕ) (detail : Detail) (o : Outcome) (first : Option Detail)
    → o.first_mismatch ≡ first
    → IsTold o
    → o.mismatches < max
    → IsToldWithin max (add_report detail (noted detail o first))
add_report-IsTold max detail o none e (count, at) less = (
  (
    omega (arith, length-append o.reports (detail ∷ []), count),
    add_first o.reports detail none o (at ∙ e) e,
  ),
  omega arith,
)
add_report-IsTold max detail o (some d) e (count, at) less = (
  (
    omega (arith, length-append o.reports (detail ∷ []), count),
    add_first o.reports detail (some d) o (at ∙ e) e,
  ),
  omega arith,
)

module _ (int_of_text : Text → Option ℤ) (loads : Text → Result Value) where
  compare_from-IsTold :
      (max index : ℕ) (o : Outcome) (gs rs : List Text)
      → IsTold o
      → o.mismatches < max
      → IfOk (IsToldWithin max) (compare_from int_of_text loads max index o gs rs)
  unfolding compare_from
  compare_from-IsTold max index o [] [] h less = (h, omega arith)
  compare_from-IsTold max index o [] (r ∷ rs) h less =
      add_report-IsTold max (end_detail golden index none (some r)) o o.first_mismatch refl h less
  compare_from-IsTold max index o (g ∷ gs) [] h less =
      add_report-IsTold max (end_detail rtl index (some g) none) o o.first_mismatch refl h less
  compare_from-IsTold max index o (g ∷ gs) (r ∷ rs) h less =
      turn int_of_text loads max index o g r gs rs (IfOk (IsToldWithin max))
        (λ which line why. ((refl, refl), omega arith)) (λ e why. tt)
        (λ a b eg er same.
          compare_from-IsTold max (index + 1) (record o { compared = o.compared + 1 }) gs rs h less)
        (λ a b eg er other.
          let room : ltb (length o.reports) max ≡ true = ground (arith, h.0) in
          let told : IsToldWithin max (mismatched max index g r o) =
            rw room
              (add_report-IsTold max (pair_detail index g r) o o.first_mismatch refl h less) in
          elim (Bool-cases (leb max (mismatched max index g r o).mismatches)) [
            | inl enough ↦ rw enough told
            | inr fewer ↦ rw fewer (
                compare_from-IsTold max (index + 1) (mismatched max index g r o) gs rs told.0
                  (ground arith))
          ])

  -- If at least one divergence may be reported, then at most `max_report` are counted, each of them
  -- is reported, and the first report is the `first_mismatch` of the summary.
  pub compare_files-reports :
      (max : ℕ) (gs rs : List Text) (o : Outcome)
      → 1 ≤ max
      → compare_files int_of_text loads max gs rs ≡ ok o
      → (length o.reports ≡ o.mismatches)
        × (o.mismatches ≤ max)
        × (get_elem? o.reports 0 ≡ o.first_mismatch)
  unfolding compare_files
  compare_files-reports max gs rs o more is =
      let ((count, first), within) : IsToldWithin max o =
        rw is at (
          compare_from-IsTold max 0 no_outcome (read_lines gs) (read_lines rs) (refl, refl) more) in
      (count, within, first)

  -- No exception escapes from the line.
  abbrev pub IsSettled : Text → Type 0
  IsSettled line = Settled (check_line int_of_text loads line)

  escaped : {A : Type 0} {c : Checked A} (e : Error) → c ≡ uncaught e → Settled c → ⊥
  escaped e is h = rw is at h

  pub compare_from-Returns :
      (max index : ℕ) (o : Outcome) (gs rs : List Text)
      → All IsSettled gs
      → All IsSettled rs
      → Returns (λ o. Unit) (compare_from int_of_text loads max index o gs rs)
  unfolding compare_from
  compare_from-Returns max index o [] [] hg hr = tt
  compare_from-Returns max index o [] (r ∷ rs) hg hr = tt
  compare_from-Returns max index o (g ∷ gs) [] hg hr = tt
  compare_from-Returns max index o (g ∷ gs) (r ∷ rs) (fg, hg) (fr, hr) =
      turn int_of_text loads max index o g r gs rs (Returns (λ o. Unit)) (λ which line why. tt)
        (λ e why. absurd (elim why [ inl eg ↦ escaped e eg fg | inr er ↦ escaped e er fr ]))
        (λ a b eg er same.
          compare_from-Returns max (index + 1) (record o { compared = o.compared + 1 }) gs rs hg hr)
        (λ a b eg er other. elim (Bool-cases (leb max (mismatched max index g r o).mismatches)) [
          | inl enough ↦ rw enough tt
          | inr fewer ↦
              rw fewer
                (compare_from-Returns max (index + 1) (mismatched max index g r o) gs rs hg hr)
        ])
