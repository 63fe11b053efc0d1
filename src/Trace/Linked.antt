-- ===== src/Trace/Linked.antt =====
-- One event of `dump_trace` of model/dump_trace.py: the strategy, the risk gate and the encoder fit
-- together and raise nothing.
use hft_rtl.Prelude.{
  Bool, true, false, ℕ, ◌+◌, ◌^◌, ◌≤◌, ◌<◌, ◌≡◌, inl, inr, Option, none, some, arith, length,
  Bool-cases,
}
use hft_rtl.Prelude.Bytes.{ascii}
use hft_rtl.Prelude.Result.{Returns, Returns-bind}
use hft_rtl.Market.{Event}
use hft_rtl.Market.Invariant.{IsFull}
use hft_rtl.Market.Bounds.{IsBoundedEvent}
use hft_rtl.Strategy
use hft_rtl.Strategy.{Intent}
use hft_rtl.Strategy.Total.{IsSized, IsOrder, IfIntent, on_update-Returns}
use hft_rtl.Risk
use hft_rtl.Risk.{RiskGate}
use hft_rtl.Risk.Total.{on_intent-Returns}
use hft_rtl.Ouch.Frame.{encode_lem}
use hft_rtl.Ouch.Tokens.{token_slice, token_slice-encode}
use hft_rtl.Ouch.Total.{IsReady, encode_ready, is_ascii-token_of}
use hft_rtl.Trace.{Line, Chain, send_order, on_intent, on_update, if_file, on_chain}

-- A line of the book trace shows eight levels on both sides.
abbrev pub ShowsAll : Line → Type 0
ShowsAll l = (length l.bid ≡ 8) × (length l.ask ≡ 8)

module _ (N shares : ℕ) (hs : shares < 256 ^ 4) where
  -- The parts of the chain fit together, and at most `k` orders are encoded.
  pub record IsLinked (k : ℕ) (c : Chain) : Type 0 where
    pub strategy_sized : IsSized N shares c.strategy
    pub positions : length c.risk.positions ≡ N
    pub encoder : IsReady N c.ouch
    pub few : c.ouch.counter ≤ k

  abbrev pub IfLinked : ℕ → Option Chain → Type 0
  IfLinked k none = Unit
  IfLinked k (some c) = IsLinked k c

  pub IsLinked-le : {k l : ℕ} {c : Chain} → k ≤ l → IsLinked k c → IsLinked l c
  IsLinked-le h p = record {
    strategy_sized = p.strategy_sized;
    positions = p.positions;
    encoder = p.encoder;
    few = omega (arith, p.few);
  }

  send_order-Returns :
      (n k : ℕ) (c : Chain) (i : Intent)
      → k < 256 ^ 4
      → IsLinked k c
      → IsOrder (256 ^ 4) N shares i
      → Returns (IsLinked (k + 1)) (send_order n c i)
  unfolding send_order ascii token_slice
  send_order-Returns n k c i small h o =
      let (stock, fits) =
        encode_ready N c.ouch i.symbol_idx i.side i.shares i.price h.encoder (omega (arith, h.few))
          o.known o.side_count o.side_is_ascii (omega (arith, o.sends)) o.cheap in
      let made = encode_lem c.ouch i.symbol_idx i.side stock i.shares i.price fits in
      let slice =
        token_slice-encode c.ouch _ i.symbol_idx i.side i.shares i.price _ (omega (arith, h.few))
          made in
      let letters = is_ascii-token_of c.ouch.counter (omega (arith, h.few)) in
      rw (made, slice, letters)
        (record {
          strategy_sized = h.strategy_sized;
          positions = h.positions;
          encoder = record { known = h.encoder.known; stocks = h.encoder.stocks };
          few = omega (arith, h.few);
        })

  on_intent-Linked :
      (n k : ℕ) (c : Chain) (fired : Option Intent)
      → k < 256 ^ 4
      → IsLinked k c
      → IfIntent (256 ^ 4) N shares fired
      → Returns (IsLinked (k + 1)) (on_intent n c fired)
  unfolding on_intent
  on_intent-Linked n k c none small h o = IsLinked-le (omega arith) h
  on_intent-Linked n k c (some i) small h o =
      Returns-bind (λ (r : RiskGate × Bool). length r.0.positions ≡ N) (IsLinked (k + 1))
        (Risk.on_intent c.risk i) _ (on_intent-Returns N c.risk i h.positions o.known)
        (λ answer count.
          let c' = record c { risk = answer.0 } in
          let linked : IsLinked k c' = record {
            strategy_sized = h.strategy_sized;
            positions = count;
            encoder = h.encoder;
            few = h.few;
          } in
          elim (Bool-cases answer.1) [
            | inl e ↦ rw e (send_order-Returns n k c' i small linked o)
            | inr e ↦ rw e (IsLinked-le (omega arith) linked)
          ])

  on_update-Linked :
      (n k : ℕ) (ev : Event) (c : Chain)
      → k < 256 ^ 4
      → IsBoundedEvent (256 ^ 4) N ev
      → IsFull 8 ev
      → IsLinked k c
      → Returns (IsLinked (k + 1)) (on_update n ev c)
  unfolding on_update Risk.on_update
  on_update-Linked n k ev c small b full h =
      Returns-bind _ (IsLinked (k + 1)) (Strategy.on_update c.strategy ev) _
        (on_update-Returns (256 ^ 4) N shares c.strategy ev h.strategy_sized b
          (omega (arith, full.bids)) (omega (arith, full.asks)))
        (λ r (sized, order).
          on_intent-Linked n k (record c { strategy = r.0; risk = Risk.on_update c.risk }) r.1 small
            (record {
              strategy_sized = sized;
              positions = h.positions;
              encoder = h.encoder;
              few = h.few;
            })
            order)

  if_file-Linked :
      (open_file : Bool) (n k : ℕ) (ev : Event) (c : Chain)
      → k < 256 ^ 4
      → IsBoundedEvent (256 ^ 4) N ev
      → IsFull 8 ev
      → IsLinked k c
      → Returns (IfLinked (k + 1)) (if_file open_file n ev c)
  unfolding if_file
  if_file-Linked false n k ev c small b full h = IsLinked-le (omega arith) h
  if_file-Linked true n k ev c small b full h =
      Returns-bind (IsLinked (k + 1)) (IfLinked (k + 1)) (on_update n ev c) _
        (on_update-Linked n k ev c small b full h) (λ c' linked. linked)

  pub on_chain-Linked :
      (n k : ℕ) (ev : Event) (chain : Option Chain)
      → k < 256 ^ 4
      → IsBoundedEvent (256 ^ 4) N ev
      → IsFull 8 ev
      → IfLinked k chain
      → Returns (IfLinked (k + 1)) (on_chain n ev chain)
  unfolding on_chain
  on_chain-Linked n k ev none small b full h = tt
  on_chain-Linked n k ev (some c) small b full h = if_file-Linked c.has_file n k ev c small b full h
