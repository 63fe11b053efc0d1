-- ===== src/Orders/Command.antt =====
-- `main` of model/compare_orders.py, from the lines of the two files to what it prints and the exit
-- code.
use hft_rtl.Prelude.{
  ℕ, ◌≤◌, ◌≡◌, ◌↔◌, refl, ap, sym, ◌∙◌, ◌+◌, false, Option, some, List, [], ◌∷◌, arith, ltb, nat_eq,
  if◌then◌else◌, Text, length,
}
use hft_rtl.Prelude.Strip.{strip}
use hft_rtl.Orders.{Parsed, Outcome, Detail, no_outcome, compare_files, exit_code}
use hft_rtl.Orders.Match.{Matches, exit_code-Matches, compare_from-Matches}

-- `_read_lines`, of the lines of the file
unfoldable pub read_lines : List Text → List Text
read_lines [] = []
read_lines (line ∷ lines) = elim (strip line) [
  | [] ↦ read_lines lines
  | c ∷ cs ↦ (c ∷ cs) ∷ read_lines lines
]

-- What `main` prints.
pub data Printed : Type 0 where
  vacuous : ℕ → ℕ → Printed
  matching : ℕ → Printed
  mismatching : ℕ → ℕ → ℕ → List Detail → Printed
  unreadable : Printed

pub record Exit : Type 0 where
  pub code : ℕ
  pub printed : Printed

unfoldable pub printed_of : ℕ → Outcome → Printed
printed_of min_orders o =
    if nat_eq o.mismatches 0
    then if ltb o.compared min_orders then vacuous o.compared min_orders else matching o.compared
    else mismatching o.mismatches o.matched_before_first o.compared o.reports

abbrev failed : Exit
failed = record { code = 1; printed = unreadable }

-- `none` is a file that cannot be opened.
unfoldable pub main :
    (Text → Option Parsed) → ℕ → ℕ → Option (List Text) → Option (List Text) → Exit
main loads max_report min_orders (some golden) (some rtl) =
    let o = compare_files loads max_report (read_lines golden) (read_lines rtl) in
    record { code = exit_code min_orders o; printed = printed_of min_orders o }
main loads max_report min_orders _ _ = failed

module _ (loads : Text → Option Parsed) where
  -- Streams that line up, enough orders long.
  printed_of-Matches :
      (max min_orders : ℕ) (gs rs : List Text)
      → Matches loads gs rs
      → min_orders ≤ length gs
      → printed_of min_orders (compare_files loads max gs rs) ≡ matching (length gs)
  unfolding printed_of compare_files
  printed_of-Matches max min_orders gs rs m enough =
      let count : 0 + length gs ≡ length gs = omega arith in
      let long : ltb (length gs) min_orders ≡ false = ground arith in
      rw (compare_from-Matches loads max 0 no_outcome gs rs m, count, long) refl

  -- `main` on two files that can be opened exits with 0 and prints a match of `n` orders exactly if
  -- the lines of the files that are not blank line up one to one, each a well-formed order and equal
  -- to its partner, there are `n` of them, and `n` is at least `min_orders`.
  pub main-Matches_orders :
      (max min_orders n : ℕ) (gs rs : List Text)
      → (main loads max min_orders (some gs) (some rs) ≡ record { code = 0; printed = matching n })
        ↔ (Matches loads (read_lines gs) (read_lines rs)
            × (length (read_lines gs) ≡ n)
            × (min_orders ≤ n))
  unfolding main
  main-Matches_orders max min_orders n gs rs =
      let whole = exit_code-Matches loads max min_orders (read_lines gs) (read_lines rs) in
      let shown = printed_of-Matches max min_orders (read_lines gs) (read_lines rs) in
      (
        λ h.
            let (m, enough) = whole.0 (ap (λ (e : Exit). e.code) h) in
            let is : matching (length (read_lines gs)) ≡ matching n =
              sym (shown m enough) ∙ ap (λ (e : Exit). e.printed) h in
            let count : length (read_lines gs) ≡ n = cc in (m, count, omega (arith, enough, count)),
        λ (m, l, enough).
            let most : min_orders ≤ length (read_lines gs) = omega (arith, l, enough) in
            rw (whole.1 (m, most), shown m most, l) refl,
      )
