-- ===== src/Orders/Match.antt =====
-- When model/compare_orders.py reports a match.
use hft_rtl.Prelude.{
  ℕ, ◌+◌, ◌<◌, ◌≤◌, ◌≡◌, ◌↔◌, inl, inr, refl, ap, ◌∙◌, false, Option, none, some, List, [], ◌∷◌,
  arith, ltb, leb, nat_eq, Text, length, Bool-cases,
}
use hft_rtl.Orders.{
  Parsed, Detail, Outcome, Order, good, order_eq, noted, mismatched, drained, no_outcome,
  check_line, compare_from, compare_files, exit_code,
}
use hft_rtl.Orders.Steps.{
  Checked-cases, order_eq_iff, bad_golden, bad_rtl, same_order, last_mismatch, next_mismatch,
}

pub noted-mismatches :
    (detail : Detail) (o : Outcome) (first : Option Detail)
    → (noted detail o first).mismatches ≡ o.mismatches
noted-mismatches detail o none = refl
noted-mismatches detail o (some d) = refl

pub noted-compared :
    (detail : Detail) (o : Outcome) (first : Option Detail)
    → (noted detail o first).compared ≡ o.compared
noted-compared detail o none = refl
noted-compared detail o (some d) = refl

mismatched-positive :
    (max index : ℕ) (g r : Text) (a b : Order) (o : Outcome)
    → 0 < (mismatched max index g r a b o).mismatches
mismatched-positive max index g r a b o = elim (Bool-cases (ltb (length o.reports) max)) [
  | inl more ↦ rw more (
      omega
        (arith, noted-mismatches _ (record o { mismatches = o.mismatches + 1 }) o.first_mismatch))
  | inr full ↦ rw full (
      omega
        (arith, noted-mismatches _ (record o { mismatches = o.mismatches + 1 }) o.first_mismatch))
]

drained-positive :
    (index : ℕ) (gs rs : List Text) (o : Outcome)
    → 0 < o.mismatches
    → 0 < (drained index gs rs o).mismatches
drained-positive index gs rs o h = elim (Bool-cases (nat_eq (length gs) (length rs))) [
  | inl same ↦ rw same h
  | inr other ↦ rw other (omega arith)
]

module _ (loads : Text → Option Parsed) where
  -- Both lines are well-formed, and show the same order.
  abbrev pub IsSame : Text → Text → Type 0
  IsSame g r = (a : Order) × (check_line loads g ≡ good a) × (check_line loads r ≡ good a)

  -- The streams line up one to one.
  abbrev pub Matches : List Text → List Text → Type 0
  Matches [] [] = Unit
  Matches [] (r ∷ rs) = ⊥
  Matches (g ∷ gs) [] = ⊥
  Matches (g ∷ gs) (r ∷ rs) = IsSame g r × Matches gs rs

  compare_from_other :
      (max index : ℕ) (o : Outcome) (g r : Text) (gs rs : List Text) (a : Order)
      → check_line loads g ≡ good a
      → (b : Order) → check_line loads r ≡ good b
      → order_eq a b ≡ false
      → (0 < (mismatched max index g r a b o).mismatches
          → 0
            < (compare_from loads max
                (index + 1)
                (mismatched max index g r a b o)
                gs
                rs).mismatches)
      → 0 < (compare_from loads max index o (g ∷ gs) (r ∷ rs)).mismatches
  compare_from_other max index o g r gs rs a eg b er other rest =
      let o' = mismatched max index g r a b o in
      let more = mismatched-positive max index g r a b o in
      elim (Bool-cases (leb max o'.mismatches)) [
        | inl enough ↦
            rw (last_mismatch loads max index o g r gs rs a eg b er other enough)
              (drained-positive index gs rs o' more)
        | inr fewer ↦
            rw (next_mismatch loads max index o g r gs rs a eg b er other fewer) (rest more)
      ]

  compare_from-positive :
      (max index : ℕ) (o : Outcome) (gs rs : List Text)
      → 0 < o.mismatches
      → 0 < (compare_from loads max index o gs rs).mismatches
  unfolding compare_from
  compare_from-positive max index o [] [] h = h
  compare_from-positive max index o [] (r ∷ rs) h =
      omega
        (arith, noted-mismatches _ (record o { mismatches = o.mismatches + 1 }) o.first_mismatch)
  compare_from-positive max index o (g ∷ gs) [] h =
      omega
        (arith, noted-mismatches _ (record o { mismatches = o.mismatches + 1 }) o.first_mismatch)
  compare_from-positive max index o (g ∷ gs) (r ∷ rs) h =
      elim (Checked-cases (check_line loads g)) [
        | inl (reason, eg) ↦ rw (bad_golden loads max index o g r gs rs reason eg) (omega arith)
        | inr (a, eg) ↦ elim (Checked-cases (check_line loads r)) [
          | inl (reason, er) ↦ rw (bad_rtl loads max index o g r gs rs a eg reason er) (omega arith)
          | inr (b, er) ↦ elim (Bool-cases (order_eq a b)) [
            | inl same ↦ rw (same_order loads max index o g r gs rs a eg b er same) (
                compare_from-positive max (index + 1) (record o { compared = o.compared + 1 }) gs rs
                  h)
            | inr other ↦ compare_from_other max index o g r gs rs a eg b er other (λ more.
                compare_from-positive max (index + 1) (mismatched max index g r a b o) gs rs more)
          ]
        ]
      ]

  -- Lines that line up are all counted, and nothing else happens.
  pub compare_from-Matches :
      (max index : ℕ) (o : Outcome) (gs rs : List Text)
      → Matches gs rs
      → compare_from loads max index o gs rs ≡ record o { compared = o.compared + length gs }
  unfolding compare_from
  compare_from-Matches max index o [] [] h =
      let none_more : o.compared + 0 ≡ o.compared = omega arith in rw none_more refl
  compare_from-Matches max index o [] (r ∷ rs) h = absurd h
  compare_from-Matches max index o (g ∷ gs) [] h = absurd h
  compare_from-Matches max index o (g ∷ gs) (r ∷ rs) ((a, eg, er), h) =
      let count : o.compared + 1 + length gs ≡ o.compared + length (g ∷ gs) = omega arith in
      same_order loads max index o g r gs rs a eg a er ((order_eq_iff a a).1 refl)
      ∙ compare_from-Matches max (index + 1) (record o { compared = o.compared + 1 }) gs rs h
      ∙ rw count refl

  pub Matches-of_none :
      (max index : ℕ) (o : Outcome) (gs rs : List Text)
      → (compare_from loads max index o gs rs).mismatches ≡ 0
      → Matches gs rs
  unfolding compare_from
  Matches-of_none max index o [] [] h = tt
  Matches-of_none max index o [] (r ∷ rs) h = absurd (
      omega
        (arith, noted-mismatches _ (record o { mismatches = o.mismatches + 1 }) o.first_mismatch))
  Matches-of_none max index o (g ∷ gs) [] h = absurd (
      omega
        (arith, noted-mismatches _ (record o { mismatches = o.mismatches + 1 }) o.first_mismatch))
  Matches-of_none max index o (g ∷ gs) (r ∷ rs) h = elim (Checked-cases (check_line loads g)) [
    | inl (reason, eg) ↦
        let one =
          ap (λ (k : Outcome). k.mismatches) (bad_golden loads max index o g r gs rs reason eg) in
        absurd (omega (arith, one, h))
    | inr (a, eg) ↦ elim (Checked-cases (check_line loads r)) [
      | inl (reason, er) ↦
          let one =
            ap (λ (k : Outcome). k.mismatches)
              (bad_rtl loads max index o g r gs rs a eg reason er) in
          absurd (omega (arith, one, h))
      | inr (b, er) ↦ elim (Bool-cases (order_eq a b)) [
        | inl same ↦
            let is = (order_eq_iff a b).0 same in
            let step = same_order loads max index o g r gs rs a eg b er same in
            (
              (a, eg, rw is er),
              Matches-of_none max (index + 1) (record o { compared = o.compared + 1 }) gs rs
                  (rw step at h),
            )
        | inr other ↦ absurd (
            omega (
              arith,
              h,
              compare_from_other max index o g r gs rs a eg b er other (λ more.
                  compare_from-positive max (index + 1) (mismatched max index g r a b o) gs rs
                    more),
            ))
      ]
    ]
  ]

  -- The comparison ends with exit code 0 exactly if the two streams line up one to one, each line a
  -- well-formed order and equal to its partner, and there are at least `min_orders` of them.
  pub exit_code-Matches :
      (max min_orders : ℕ) (gs rs : List Text)
      → (exit_code min_orders (compare_files loads max gs rs) ≡ 0)
        ↔ (Matches gs rs × (min_orders ≤ length gs))
  unfolding exit_code compare_files
  exit_code-Matches max min_orders gs rs = (
    λ h. elim (Bool-cases (nat_eq (compare_from loads max 0 no_outcome gs rs).mismatches 0)) [
      | inl clean ↦
          let m = Matches-of_none max 0 no_outcome gs rs (ground arith) in
          let is = compare_from-Matches max 0 no_outcome gs rs m in (m, ground (arith, is, h))
      | inr found ↦ absurd (ground (arith, h))
    ],
    λ (m, enough). rw (compare_from-Matches max 0 no_outcome gs rs m) (ground arith),
  )
