-- ===== src/Risk/Exposure.antt =====
-- The gate of model/risk.py over runs of updates and intents: the position limit, the spacing of
-- accepts, and positions as the sum of what was accepted.
use hft_rtl.Prelude.{
  ℕ, zero, suc, ◌+◌, ◌≤◌, ◌<◌, ◌≡◌, refl, ◌∙◌, Bool, true, false, some, List, [], ◌∷◌, arith,
  nat_eq, nat_eq_iff, if◌then◌else◌, get_elem?, get_elem?-set_self, get_elem?-set_ne,
  lt_of_get_elem?, All, All-set, All-replicate, All-get_elem?, replicate, length-replicate,
  get_elem?-some, Bool-cases, Option-cases, inl, inr,
}
use hft_rtl.Prelude.Int.{ℤ, pos, ◌+ℤ◌, abs}
use hft_rtl.Prelude.Result.{ok}
use hft_rtl.Strategy.{Intent}
use hft_rtl.Risk.{RiskGate, delta_of, init, on_update, on_intent}
use hft_rtl.Risk.Checks.{on_intent-Passes, SameExposure}

-- What happens to a gate, one call after the other: book updates, and intents with their answers.
pub data Call : Type 0 where
  update : Call
  intent : Intent → Bool → Call

pub data Run : RiskGate → List Call → RiskGate → Type 0 where
  done : {r : RiskGate} → Run r [] r
  updated :
      {r r' : RiskGate} {calls : List Call} → Run (on_update r) calls r' → Run r (update ∷ calls) r'
  answered :
      {r r' r'' : RiskGate} {calls : List Call} {i : Intent} {answer : Bool}
      → on_intent r i ≡ ok (r', answer)
      → Run r' calls r''
      → Run r (intent i answer ∷ calls) r''

unfoldable pub updates_in : List Call → ℕ
updates_in [] = 0
updates_in (update ∷ calls) = 1 + updates_in calls
updates_in (intent i answer ∷ calls) = updates_in calls

unfoldable pub accepts_in : List Call → ℕ
accepts_in [] = 0
accepts_in (update ∷ calls) = accepts_in calls
accepts_in (intent i answer ∷ calls) = (if answer then 1 else 0) + accepts_in calls

-- The position of a symbol after the accepted intents among the calls.
unfoldable pub exposure : ℕ → ℤ → List Call → ℤ
exposure idx p [] = p
exposure idx p (update ∷ calls) = exposure idx p calls
exposure idx p (intent i answer ∷ calls) =
    exposure idx (if answer then (if nat_eq i.symbol_idx idx then p +ℤ delta_of i else p) else p)
      calls

abbrev pub WithinLimit : RiskGate → Type 0
WithinLimit r = All (λ (p : ℤ). abs p ≤ r.max_position) r.positions

-- Settings never change, and a rejected intent moves only counters.
rejected_same :
    (r r' : RiskGate) (i : Intent)
    → on_intent r i ≡ ok (r', false)
    → SameExposure r r'
      × (r'.max_position ≡ r.max_position)
      × (r'.min_order_spacing ≡ r.min_order_spacing)
unfolding on_intent
rejected_same r r' i e = elim (Option-cases (get_elem? r.positions i.symbol_idx)) [
  | inl missing ↦ ground arith
  | inr (old, found) ↦ ground arith
]

pub answered-WithinLimit :
    (r r' : RiskGate) (i : Intent) (answer : Bool)
    → on_intent r i ≡ ok (r', answer)
    → WithinLimit r
    → WithinLimit r'
answered-WithinLimit r r' i false e h =
    let (same, limit, _) = rejected_same r r' i e in rw (same.0, limit) h
answered-WithinLimit r r' i true e h =
    let (old, found, passes, is) = on_intent-Passes r r' i e in
    rw is (
      All-set (λ (p : ℤ). abs p ≤ r.max_position) r.positions i.symbol_idx (old +ℤ delta_of i) h
        passes.within)

Run-WithinLimit :
    {r r' : RiskGate} {calls : List Call} → Run r calls r' → WithinLimit r → WithinLimit r'
unfolding on_update
Run-WithinLimit done h = h
Run-WithinLimit (updated run) h = Run-WithinLimit run h
Run-WithinLimit (answered {r} {r'} {i = i} {answer = answer} e run) h =
    Run-WithinLimit run (answered-WithinLimit r r' i answer e h)

pub answered-exposure :
    (r r' : RiskGate) (i : Intent) (answer : Bool) (idx : ℕ) (p : ℤ)
    → on_intent r i ≡ ok (r', answer)
    → get_elem? r.positions idx ≡ some p
    → get_elem? r'.positions idx
      ≡ some (if answer then (if nat_eq i.symbol_idx idx then p +ℤ delta_of i else p) else p)
answered-exposure r r' i false idx p e at =
    let (same, _, _) = rejected_same r r' i e in rw same.0 at
answered-exposure r r' i true idx p e at =
    let (old, found, passes, is) = on_intent-Passes r r' i e in
    elim (Bool-cases (nat_eq i.symbol_idx idx)) [
      | inl same ↦
          let here : i.symbol_idx ≡ idx = (nat_eq_iff i.symbol_idx idx).0 same in
          let at' : get_elem? r.positions i.symbol_idx ≡ some p = rw here at in
          let both : old ≡ p = cc in
          rw (is, same)
            (rw (← both, ← here)
              (get_elem?-set_self r.positions i.symbol_idx (old +ℤ delta_of i)
                (lt_of_get_elem? r.positions i.symbol_idx found)))
      | inr other ↦
          rw (is, other) (get_elem?-set_ne r.positions (old +ℤ delta_of i) (ground arith) ∙ at)
    ]

Run-positions :
    {r r' : RiskGate} {calls : List Call} (idx : ℕ) (p : ℤ)
    → Run r calls r'
    → get_elem? r.positions idx ≡ some p
    → get_elem? r'.positions idx ≡ some (exposure idx p calls)
unfolding on_update exposure
Run-positions idx p done at = at
Run-positions idx p (updated run) at = Run-positions idx p run at
Run-positions idx p (answered {r} {r'} {i = i} {answer = answer} e run) at =
    Run-positions idx _ run (answered-exposure r r' i answer idx p e at)

pub answered-max_position :
    (r r' : RiskGate) (i : Intent) (answer : Bool)
    → on_intent r i ≡ ok (r', answer)
    → r'.max_position ≡ r.max_position
answered-max_position r r' i false e = let (_, limit, _) = rejected_same r r' i e in limit
answered-max_position r r' i true e =
    let (old, found, passes, is) = on_intent-Passes r r' i e in rw is refl

Run-max_position :
    {r r' : RiskGate} {calls : List Call} → Run r calls r' → r'.max_position ≡ r.max_position
unfolding on_update
Run-max_position done = refl
Run-max_position (updated run) = Run-max_position run
Run-max_position (answered {r} {r'} {i = i} {answer = answer} e run) =
    Run-max_position run ∙ answered-max_position r r' i answer e

pub get_elem?-replicate : (n i : ℕ) (x p : ℤ) → get_elem? (replicate n x) i ≡ some p → p ≡ x
get_elem?-replicate zero i x p e = cc
get_elem?-replicate (suc n) zero x p e = cc
get_elem?-replicate (suc n) (suc i) x p e = get_elem?-replicate n i x p e

-- After any run of calls from a new gate that ends without an exception, the position of each of its
-- symbols is the signed sum of the shares that the gate accepted for it, and that sum is at most
-- `max_position` in size.
pub Run-exposure :
    (num_symbols max_position min_order_spacing collar_shift idx : ℕ) (calls : List Call)
    (r : RiskGate)
    → idx < num_symbols
    → Run (init num_symbols max_position min_order_spacing collar_shift) calls r
    → (get_elem? r.positions idx ≡ some (exposure idx (pos 0) calls))
      × (abs (exposure idx (pos 0) calls) ≤ max_position)
Run-exposure n max spacing shift idx calls r h run =
    let new = init n max spacing shift in
    let (p, found) = get_elem?-some (replicate n (pos 0)) idx (rw (length-replicate n (pos 0)) h) in
    let start : get_elem? new.positions idx ≡ some (pos 0) =
      rw (get_elem?-replicate n idx (pos 0) p found) at found in
    let at = Run-positions idx (pos 0) run start in
    let within =
      Run-WithinLimit run (All-replicate (λ (q : ℤ). abs q ≤ max) n (pos 0) (omega arith)) in
    let small = All-get_elem? (λ (q : ℤ). abs q ≤ r.max_position) r.positions idx within at in
    (at, omega (arith, small, Run-max_position run))

Run_early :
    {r r' : RiskGate} {calls : List Call}
    → Run r calls r'
    → r.updates_since_accept + updates_in calls < r.min_order_spacing
    → accepts_in calls ≡ 0
unfolding on_update updates_in accepts_in
Run_early done h = refl
Run_early (updated run) h = Run_early run (omega arith)
Run_early (answered {r} {r'} {i = i} {answer = false} e run) h =
    let (same, _, spacing) = rejected_same r r' i e in
    omega (arith, Run_early run (rw (same.1, spacing) h))
Run_early (answered {r} {r'} {i = i} {answer = true} e run) h =
    let (old, found, passes, is) = on_intent-Passes r r' i e in
    absurd (omega (arith, passes.spaced))

-- After an accepted intent, a run of calls with fewer than `min_order_spacing` updates accepts
-- nothing.
pub Run-spacing :
    (r r' r'' : RiskGate) (i : Intent) (calls : List Call)
    → on_intent r i ≡ ok (r', true)
    → Run r' calls r''
    → updates_in calls < r.min_order_spacing
    → accepts_in calls ≡ 0
Run-spacing r r' r'' i calls e run h =
    let (old, found, passes, is) = on_intent-Passes r r' i e in Run_early run (rw is (omega arith))
