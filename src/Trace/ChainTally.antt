-- ===== src/Trace/ChainTally.antt =====
-- The counters of the strategy, the risk gate and the encoder in a run of model/dump_trace.py.
use hft_rtl.Prelude.{
  ℕ, ◌+◌, ◌≡◌, refl, ap, ◌∙◌, Bool, true, false, Option, none, some, [], ◌∷◌, ◌++◌, arith, length,
  length-append, Option-cases, Bool-cases, inl, inr, get_elem?, take, drop,
}
use hft_rtl.Prelude.Bytes.{ascii}
use hft_rtl.Prelude.Result.{ok, >>=-eq-ok}
use hft_rtl.Market.{Event}
use hft_rtl.Strategy
use hft_rtl.Strategy.{Strategy, Intent, count_intent}
use hft_rtl.Strategy.Edge.{on_update-eq-ok}
use hft_rtl.Risk
use hft_rtl.Risk.{RiskGate, check_position}
use hft_rtl.Ouch
use hft_rtl.Trace.{Chain, order_line, send_order, on_intent, on_update}

-- All the answers of the gate.
abbrev pub answers : RiskGate → ℕ
answers r =
    r.accept_count
    + (r.sanity_reject_count + (r.collar_reject_count + (r.rate_reject_count + r.pos_reject_count)))

abbrev pub as_number : Bool → ℕ
as_number true = 1
as_number false = 0

on_intent-answers :
    (r r' : RiskGate) (i : Intent) (accepted : Bool)
    → Risk.on_intent r i ≡ ok (r', accepted)
    → (answers r' ≡ answers r + 1) × (r'.accept_count ≡ r.accept_count + as_number accepted)
unfolding Risk.on_intent check_position
on_intent-answers r r' i accepted e = elim (Option-cases (get_elem? r.positions i.symbol_idx)) [
  | inl missing ↦ ground arith
  | inr (old, found) ↦ ground arith
]

-- Every intent has an answer, and every accept has an order and a line.
pub record ChainTallied (c : Chain) : Type 0 where
  pub answered : c.strategy.intent_count ≡ answers c.risk
  pub encoded : c.ouch.counter ≡ c.risk.accept_count
  pub written : length c.orders ≡ c.risk.accept_count

send_order-tallies :
    (n : ℕ) (c c' : Chain) (i : Intent)
    → send_order n c i ≡ ok c'
    → (c'.strategy ≡ c.strategy)
      × (c'.risk ≡ c.risk)
      × (c'.ouch.counter ≡ c.ouch.counter + 1)
      × (length c'.orders ≡ length c.orders + 1)
unfolding send_order Ouch.encode
send_order-tallies n c c' i e =
    let (raw, e1, e2) = >>=-eq-ok (Ouch.encode c.ouch i.symbol_idx i.side i.shares i.price).1 _ e in
    let (token, e3, e4) = >>=-eq-ok (ascii (take 14 (drop 3 raw))) _ e2 in
    let line = order_line n i token raw in
    let is : record c {
      ouch = record c.ouch { counter = c.ouch.counter + 1 };
      orders = c.orders ++ line ∷ [];
    }
        ≡ c' =
      cc e4 in
    rw (← is) (refl, refl, refl, length-append c.orders (line ∷ []))

on_intent-ChainTallied :
    (n : ℕ) (c c' : Chain) (fired : Option Intent)
    → on_intent n c fired ≡ ok c'
    → c.strategy.intent_count ≡ answers c.risk + count_intent fired
    → c.ouch.counter ≡ c.risk.accept_count
    → length c.orders ≡ c.risk.accept_count
    → ChainTallied c'
unfolding on_intent
on_intent-ChainTallied n c c' none e all encoded written =
    let is : c ≡ c' = cc in
    rw (← is) (record { answered = omega arith; encoded = encoded; written = written })
on_intent-ChainTallied n c c' (some i) e all encoded written =
    let ((r', accepted), e1, e2) = >>=-eq-ok (Risk.on_intent c.risk i) _ e in
    let (one, count) = on_intent-answers c.risk r' i accepted e1 in
    elim (Bool-cases accepted) [
      | inl yes' ↦
          let sent : send_order n (record c { risk = r' }) i ≡ ok c' = rw yes' at e2 in
          let (s, r, o, l) = send_order-tallies n (record c { risk = r' }) c' i sent in
          let one_more : r'.accept_count ≡ c.risk.accept_count + 1 = rw yes' at count in
          record {
            answered = rw (s, r) (omega arith);
            encoded = rw (r) (omega arith);
            written = rw (r) (omega arith);
          }
      | inr no' ↦
          let kept : ok (record c { risk = r' }) ≡ ok c' = rw no' at e2 in
          let is : record c { risk = r' } ≡ c' = cc in
          let same : r'.accept_count ≡ c.risk.accept_count + 0 = rw no' at count in
          rw (← is)
            (record { answered = omega arith; encoded = omega arith; written = omega arith })
    ]

pub on_update-ChainTallied :
    (n : ℕ) (ev : Event) (c c' : Chain)
    → on_update n ev c ≡ ok c'
    → ChainTallied c
    → ChainTallied c'
unfolding on_update Risk.on_update
on_update-ChainTallied n ev c c' e t =
    let ((s', fired), e1, e2) = >>=-eq-ok (Strategy.on_update c.strategy ev) _ e in
    let (old, since, _, _, _, is) = on_update-eq-ok c.strategy s' ev fired e1 in
    let counted : s'.intent_count ≡ c.strategy.intent_count + count_intent fired =
      ap (λ (s : Strategy). s.intent_count) is in
    on_intent-ChainTallied n (record c { strategy = s'; risk = Risk.on_update c.risk }) c' fired e2
      (counted ∙ ap (λ (k : ℕ). k + count_intent fired) t.answered) t.encoded t.written
