-- ===== src/Tests/Risk.antt =====
-- `RiskGate` of model/risk.py on concrete intents.
use hft_rtl.Prelude.{
  ◌≤◌, ◌≡◌, refl, ◌↔◌, true, false, some, [], ◌∷◌, arith, nat_eq, get_elem?, text_eq,
}
use hft_rtl.Prelude.Int.{ℤ, pos, negsuc, ◌+ℤ◌, abs}
use hft_rtl.Prelude.Result.{ok}
use hft_rtl.Strategy.{Intent}
use hft_rtl.Risk.{RiskGate, init, on_update, check_position, on_intent}
use hft_rtl.Risk.Checks.{
  Passes, accepted, on_intent-accepts_iff, counters, failing, first_true, bump_at, SameExposure,
  on_intent-counters,
}
use hft_rtl.Risk.Exposure.{
  Run, done, updated, answered, intent, update, updates_in, accepts_in, exposure, Run-exposure,
  Run-spacing,
}

program : Unit {0}
unfolding text_eq ◌+ℤ◌ check_position on_intent on_update exposure updates_in accepts_in first_true
    bump_at
program = tt

abbrev gate : RiskGate
gate = init 2 1000 1 3

abbrev ready : RiskGate
ready = record gate { updates_since_accept = 1 }

abbrev sell : Intent
sell = record { symbol_idx = 1; side = b'S' ∷ []; shares = 100; price = 99; bid0 = 99; ask0 = 101 }

abbrev sold : RiskGate
sold = record gate { positions = pos 0 ∷ negsuc 99 ∷ []; accept_count = 1 }

accept_sell : on_intent ready sell ≡ ok (sold, true)
unfolding program
accept_sell = refl

too_early : on_intent sold sell ≡ ok (record sold { rate_reject_count = 1 }, false)
unfolding program
too_early = refl

crossed :
    on_intent ready (record sell { ask0 = 99 })
    ≡ ok (record ready { sanity_reject_count = 1 }, false)
unfolding program
crossed = refl

off_collar :
    on_intent ready (record sell { price = 113 })
    ≡ ok (record ready { collar_reject_count = 1 }, false)
unfolding program
off_collar = refl

too_large :
    on_intent ready (record sell { shares = 1001 })
    ≡ ok (record ready { pos_reject_count = 1 }, false)
unfolding program
too_large = refl

run_ready :
    Run gate
      (update ∷ intent sell true ∷ intent sell false ∷ [])
      (record sold { rate_reject_count = 1 })
unfolding on_update
run_ready = updated (answered accept_sell (answered too_early done))

on_intent-accepts_iff_example : (on_intent ready sell ≡ ok (sold, true)) ↔ (
    (old : ℤ) × (get_elem? ready.positions 1 ≡ some old)
    × Passes ready sell old
    × (sold ≡ accepted ready sell old))
on_intent-accepts_iff_example = on_intent-accepts_iff ready sold sell

on_intent-counters_example :
    (r : RiskGate) × (on_intent ready sell
      ≡ ok (r, nat_eq (first_true (failing ready sell (pos 0))) 4))
    × (counters r ≡ bump_at (first_true (failing ready sell (pos 0))) (counters ready))
    × (nat_eq (first_true (failing ready sell (pos 0))) 4 ≡ false → SameExposure ready r)
on_intent-counters_example = on_intent-counters ready sell (pos 0) refl

Run-exposure_example :
    (get_elem? sold.positions 1
      ≡ some (exposure 1 (pos 0) (update ∷ intent sell true ∷ intent sell false ∷ [])))
    × (abs (exposure 1 (pos 0) (update ∷ intent sell true ∷ intent sell false ∷ [])) ≤ 1000)
Run-exposure_example =
    Run-exposure 2 1000 1 3 1 (update ∷ intent sell true ∷ intent sell false ∷ [])
      (record sold { rate_reject_count = 1 }) (omega arith) run_ready

Run-spacing_example : accepts_in (intent sell false ∷ []) ≡ 0
unfolding program
Run-spacing_example =
    Run-spacing ready sold (record sold { rate_reject_count = 1 }) sell (intent sell false ∷ [])
      accept_sell (answered too_early done) (omega arith)
