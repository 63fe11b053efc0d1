-- ===== src/Orders/Steps.antt =====
-- The branches of one turn of the loop in model/compare_orders.py.
use hft_rtl.Prelude.{
  ℕ, ◌+◌, ◌≡◌, ◌↔◌, ◌⊎◌, inl, inr, refl, arith, true, false, Option, List, ◌∷◌, leb, Text,
  text_eq_iff,
}
use hft_rtl.Prelude.Int.{int_eq_iff}
use hft_rtl.Orders.{
  Parsed, Which, golden, rtl, Reason, Outcome, Order, Checked, bad, good, order_eq, bad_line,
  mismatched, drained, check_line, compare_from,
}

pub Checked-cases :
    (c : Checked) → ((r : Which → Reason) × (c ≡ bad r)) ⊎ ((a : Order) × (c ≡ good a))
Checked-cases (bad r) = inl (r, refl)
Checked-cases (good a) = inr (a, refl)

pub order_eq_iff : (a b : Order) → (order_eq a b ≡ true) ↔ (a ≡ b)
order_eq_iff a b = ground (arith, int_eq_iff a.0 b.0, text_eq_iff a.1 b.1)

module _ (loads : Text → Option Parsed) (max index : ℕ) (o : Outcome) (g r : Text)
    (gs rs : List Text) where
  pub bad_golden :
      (reason : Which → Reason)
      → check_line loads g ≡ bad reason
      → compare_from loads max index o (g ∷ gs) (r ∷ rs)
        ≡ bad_line golden index g (reason golden) o.compared
  unfolding compare_from
  bad_golden reason eg = rw (eg, compare_from) refl

  module _ (a : Order) (eg : check_line loads g ≡ good a) where
    pub bad_rtl :
        (reason : Which → Reason)
        → check_line loads r ≡ bad reason
        → compare_from loads max index o (g ∷ gs) (r ∷ rs)
          ≡ bad_line rtl index r (reason rtl) o.compared
    unfolding compare_from
    bad_rtl reason er = rw (eg, er, compare_from) refl

    module _ (b : Order) (er : check_line loads r ≡ good b) where
      pub same_order :
          order_eq a b ≡ true
          → compare_from loads max index o (g ∷ gs) (r ∷ rs)
            ≡ compare_from loads max (index + 1) (record o { compared = o.compared + 1 }) gs rs
      unfolding compare_from
      same_order same = rw (eg, er, same, compare_from) refl

      pub last_mismatch :
          order_eq a b ≡ false
          → leb max (mismatched max index g r a b o).mismatches ≡ true
          → compare_from loads max index o (g ∷ gs) (r ∷ rs)
            ≡ drained index gs rs (mismatched max index g r a b o)
      unfolding compare_from
      last_mismatch other enough = rw (eg, er, other, enough, compare_from) refl

      pub next_mismatch :
          order_eq a b ≡ false
          → leb max (mismatched max index g r a b o).mismatches ≡ false
          → compare_from loads max index o (g ∷ gs) (r ∷ rs)
            ≡ compare_from loads max (index + 1) (mismatched max index g r a b o) gs rs
      unfolding compare_from
      next_mismatch other fewer = rw (eg, er, other, fewer, compare_from) refl
