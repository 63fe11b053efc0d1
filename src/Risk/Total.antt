-- ===== src/Risk/Total.antt =====
-- `RiskGate.on_intent` of model/risk.py raises nothing on an intent for one of its symbols.
use hft_rtl.Prelude.{
  ℕ, ◌<◌, ◌≡◌, ◌∙◌, inl, inr, Bool, not, arith, ltb, length, length-set, get_elem?-some, Bool-cases,
}
use hft_rtl.Prelude.Int.{abs, ◌+ℤ◌}
use hft_rtl.Prelude.Result.{Returns}
use hft_rtl.Strategy.{Intent}
use hft_rtl.Risk.{RiskGate, is_sane, breaks_collar, delta_of, check_position, on_intent}

module _ (N : ℕ) where
  abbrev Answered : RiskGate × Bool → Type 0
  Answered r = length r.0.positions ≡ N

  check_position-Returns :
      (r : RiskGate) (i : Intent)
      → length r.positions ≡ N
      → i.symbol_idx < N
      → Returns Answered (check_position r i)
  unfolding check_position
  check_position-Returns r i h known =
      let (old, e) = get_elem?-some r.positions i.symbol_idx (omega (arith, h)) in
      let after = old +ℤ delta_of i in
      elim (Bool-cases (ltb r.max_position (abs after))) [
        | inl e' ↦ rw (e, e') h
        | inr e' ↦ rw (e, e') (length-set r.positions i.symbol_idx after ∙ h)
      ]

  pub on_intent-Returns :
      (r : RiskGate) (i : Intent)
      → length r.positions ≡ N
      → i.symbol_idx < N
      → Returns Answered (on_intent r i)
  unfolding on_intent
  on_intent-Returns r i h known = elim (Bool-cases (not (is_sane i))) [
    | inl e ↦ rw e h
    | inr e ↦ elim (Bool-cases (breaks_collar r i)) [
      | inl e' ↦ rw (e, e') h
      | inr e' ↦ elim (Bool-cases (ltb r.updates_since_accept r.min_order_spacing)) [
        | inl e3 ↦ rw (e, e', e3) h
        | inr e3 ↦ rw (e, e', e3) (check_position-Returns r i h known)
      ]
    ]
  ]
