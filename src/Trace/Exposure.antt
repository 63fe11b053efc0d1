-- ===== src/Trace/Exposure.antt =====
-- The positions of the risk gate in model/dump_trace.py, against the lines of the order trace.
use hft_rtl.Prelude.{
  ℕ, ◌+◌, ◌<◌, ◌≤◌, ◌≡◌, refl, ◌∙◌, Bool-cases, inl, inr, Option, none, some, List, [], ◌∷◌, ◌++◌,
  arith, nat_eq, text_eq, if◌then◌else◌, All-replicate, All-get_elem?, length, length-replicate,
  replicate, get_elem?, get_elem?-some, take, drop,
}
use hft_rtl.Prelude.Bytes.{Bytes, ascii}
use hft_rtl.Prelude.Int.{ℤ, pos, ◌+ℤ◌, sub_ℕ, abs}
use hft_rtl.Prelude.Result.{ok, >>=-eq-ok}
use hft_rtl.Market.{Event}
use hft_rtl.Strategy
use hft_rtl.Strategy.{Intent}
use hft_rtl.Risk
use hft_rtl.Risk.{RiskGate}
use hft_rtl.Risk.Exposure.{
  WithinLimit, answered-WithinLimit, answered-exposure, answered-max_position, get_elem?-replicate,
}
use hft_rtl.Ouch
use hft_rtl.Ouch.{OuchEncoder}
use hft_rtl.Trace.{
  Options, Dump, Chain, Summary, OrderLine, order_line, send_order, on_intent, on_update, new_chain,
  dump_trace,
}
use hft_rtl.Trace.Lift.{dump_trace-Holds}

-- The signed size of an order.
abbrev pub signed : OrderLine → ℤ
signed line = if text_eq line.side (b'B' ∷ []) then pos line.shares else sub_ℕ 0 line.shares

abbrev pub moved : ℕ → ℤ → OrderLine → ℤ
moved idx p line = if nat_eq line.symbol_idx idx then p +ℤ signed line else p

-- The net size of the orders for a symbol.
unfoldable pub net : ℕ → ℤ → List OrderLine → ℤ
net idx p [] = p
net idx p (line ∷ lines) = net idx (moved idx p line) lines

net-append_one :
    (idx : ℕ) (p : ℤ) (lines : List OrderLine) (line : OrderLine)
    → net idx p (lines ++ line ∷ []) ≡ moved idx (net idx p lines) line
unfolding net
net-append_one idx p [] line = refl
net-append_one idx p (l ∷ lines) line = net-append_one idx (moved idx p l) lines line

-- The gate's position is the net size of the orders written, within the limit.
abbrev IsNetted : ℕ → ℕ → Chain → Type 0
IsNetted idx max c =
    (get_elem? c.risk.positions idx ≡ some (net idx (pos 0) c.orders))
    × WithinLimit c.risk
    × (c.risk.max_position ≡ max)

send_order-lines :
    (n : ℕ) (c c' : Chain) (i : Intent)
    → send_order n c i ≡ ok c'
    → (line : OrderLine) × (c'.risk ≡ c.risk)
      × (c'.orders ≡ c.orders ++ line ∷ [])
      × (line.side ≡ i.side)
      × (line.shares ≡ i.shares)
      × (line.symbol_idx ≡ i.symbol_idx)
unfolding send_order Ouch.encode
send_order-lines n c c' i e =
    let (raw, e1, e2) = >>=-eq-ok (Ouch.encode c.ouch i.symbol_idx i.side i.shares i.price).1 _ e in
    let (token, e3, e4) = >>=-eq-ok (ascii (take 14 (drop 3 raw))) _ e2 in
    let line = order_line n i token raw in
    let next : OuchEncoder = record c.ouch { counter = c.ouch.counter + 1 } in
    let is : record c { ouch = next; orders = c.orders ++ line ∷ [] } ≡ c' = cc e4 in
    rw (← is) (line, refl, refl, refl, refl, refl)

on_intent-IsNetted :
    (idx max n : ℕ) (c c' : Chain) (fired : Option Intent)
    → on_intent n c fired ≡ ok c'
    → IsNetted idx max c
    → IsNetted idx max c'
unfolding on_intent
on_intent-IsNetted idx max n c c' none e t = let is : c ≡ c' = cc in rw (← is) t
on_intent-IsNetted idx max n c c' (some i) e (at, within, limit) =
    let ((r', accepted), e1, e2) = >>=-eq-ok (Risk.on_intent c.risk i) _ e in
    let within' = answered-WithinLimit c.risk r' i accepted e1 within in
    let limit' = answered-max_position c.risk r' i accepted e1 ∙ limit in
    let at' = answered-exposure c.risk r' i accepted idx (net idx (pos 0) c.orders) e1 at in
    elim (Bool-cases accepted) [
      | inl passed ↦
          let (line, r, o, side, shares, symbol) =
            send_order-lines n (record c { risk = r' }) c' i (rw passed at e2) in
          let here = rw passed at at' in
          let sum = net-append_one idx (pos 0) c.orders line in
          rw (r, o, sum, side, shares, symbol) (here, within', limit')
      | inr rejected ↦
          let kept : ok (record c { risk = r' }) ≡ ok c' = rw rejected at e2 in
          let is : record c { risk = r' } ≡ c' = cc in
          let here = rw rejected at at' in rw (← is) (here, within', limit')
    ]

on_update-IsNetted :
    (idx max n : ℕ) (ev : Event) (c c' : Chain)
    → on_update n ev c ≡ ok c'
    → IsNetted idx max c
    → IsNetted idx max c'
unfolding on_update Risk.on_update
on_update-IsNetted idx max n ev c c' e t =
    let ((s', fired), e1, e2) = >>=-eq-ok (Strategy.on_update c.strategy ev) _ e in
    on_intent-IsNetted idx max n (record c { strategy = s'; risk = Risk.on_update c.risk }) c' fired
      e2 t

new_chain-IsNetted :
    (o : Options) (idx : ℕ) → idx < length o.symbols → IsNetted idx o.max_position (new_chain o)
unfolding net
new_chain-IsNetted o idx h =
    let n = length o.symbols in
    let (p, found) = get_elem?-some (replicate n (pos 0)) idx (rw (length-replicate n (pos 0)) h) in
    (
      rw (get_elem?-replicate n idx (pos 0) p found) at found,
      All-replicate (λ (q : ℤ). abs q ≤ o.max_position) n (pos 0) (omega arith),
      refl,
    )

-- If a run with `--orders-out` ends without an exception, the position of each configured symbol is
-- the signed sum of the shares in the lines of the order trace for it, and that sum is at most
-- `max_position` in size.
pub dump_trace-nets :
    (o : Options) (capture : Bytes) (d : Dump) (s : Summary) (c : Chain) (idx : ℕ)
    → dump_trace o capture ≡ ok (d, s)
    → d.chain ≡ some c
    → idx < length o.symbols
    → (get_elem? c.risk.positions idx ≡ some (net idx (pos 0) c.orders))
      × (abs (net idx (pos 0) c.orders) ≤ o.max_position)
dump_trace-nets o capture d s c idx e is h =
    let holds =
      dump_trace-Holds (IsNetted idx o.max_position) (on_update-IsNetted idx o.max_position) o
        capture d s e (new_chain-IsNetted o idx h) in
    let (at, within, limit) : IsNetted idx o.max_position c = rw is at holds in
    let small =
      All-get_elem? (λ (q : ℤ). abs q ≤ c.risk.max_position) c.risk.positions idx within at in
    (at, omega (arith, small, limit))
