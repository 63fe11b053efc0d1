-- ===== src/Trace/Total.antt =====
-- One message of the loop of `dump_trace` of model/dump_trace.py: the chain and the model raise nothing.
use hft_rtl.Prelude.{
  ℕ, ◌+◌, ◌*◌, ◌^◌, ◌≤◌, ◌<◌, ◌≡◌, refl, ◌∙◌, Option, none, some, List, [], ◌∷◌, ◌++◌, arith,
  length, All, All-append_one, ap,
}
use hft_rtl.Prelude.Result.{Returns, Returns-eq}
use hft_rtl.Market.{MarketModel, Event}
use hft_rtl.Market.Invariant.{IsValid, IsFull}
use hft_rtl.Market.Bounds.{IsBounded, IsBoundedEvent, IsSent, on_message-IsSent}
use hft_rtl.Market.Initial.{n_levels-after_message}
use hft_rtl.Market.Effect.{after_message}
use hft_rtl.Market.Handlers.{on_message-Runs}
use hft_rtl.Itch.Message.{DecodedMsg}
use hft_rtl.Itch.Total.{IfCheap}
use hft_rtl.Mold.{MoldWriter}
use hft_rtl.Mold.Total.{IsAccepting}
use hft_rtl.Trace.{Chain, Dump, line_of, on_chain, on_event, on_events, on_model}
use hft_rtl.Trace.Linked.{ShowsAll, IfLinked, IsLinked-le, on_chain-Linked}

module _ (N shares : ℕ) (hs : shares < 256 ^ 4) where
  -- What the events of a message leave: the model and the writer are the same.
  record IsStepped (k : ℕ) (d d' : Dump) : Type 0 where
    model_kept : d'.model ≡ d.model
    writer_kept : d'.writer ≡ d.writer
    pub linked : IfLinked N shares hs k d'.chain
    pub shown : All ShowsAll d'.out

  on_events-Stepped :
      (n k : ℕ) (events : List Event) (d : Dump)
      → k + length events ≤ 256 ^ 4
      → All (IsBoundedEvent (256 ^ 4) N) events
      → All (IsFull 8) events
      → IfLinked N shares hs k d.chain
      → All ShowsAll d.out
      → Returns (IsStepped (k + length events) d) (on_events n events d)
  unfolding on_events on_event
  on_events-Stepped n k [] d small b full h shown =
      let same : k + 0 ≡ k = omega arith in
      rw same (record { model_kept = refl; writer_kept = refl; linked = h; shown = shown })
  on_events-Stepped n k (ev ∷ events) d small (b, bs) (f, fs) h shown =
      let (chain, e, linked) =
        Returns-eq (IfLinked N shares hs (k + 1)) (on_chain n ev d.chain)
          (on_chain-Linked N shares hs n k ev d.chain (omega arith) b f h) in
      let d' : Dump = record d {
        out = d.out ++ line_of n ev ∷ [];
        updates = d.updates + 1;
        chain = chain;
      } in
      let count : k + length (ev ∷ events) ≡ k + 1 + length events = omega arith in
      let lines = All-append_one ShowsAll d.out (line_of n ev) shown (f.bids, f.asks) in
      let (d'', e', s) =
        Returns-eq (IsStepped (k + 1 + length events) d') (on_events n events d')
          (on_events-Stepped n (k + 1) events d' (omega arith) bs fs linked lines) in
      rw (e, e', count)
        (record {
          model_kept = s.model_kept;
          writer_kept = s.writer_kept;
          linked = s.linked;
          shown = s.shown;
        })

  abbrev pub IfAccepting : ℕ → ℕ → Option MoldWriter → Type 0
  IfAccepting per n none = Unit
  IfAccepting per n (some w) = IsAccepting per n w

  -- After `n` messages.
  pub record IsRunning (per n : ℕ) (d : Dump) : Type 0 where
    pub valid : IsValid d.model
    pub levels : d.model.n_levels ≡ 8
    pub bounded : IsBounded (256 ^ 4) N d.model
    pub linked : IfLinked N shares hs (2 * n) d.chain
    pub accepting : IfAccepting per n d.writer
    pub shown : All ShowsAll d.out

  IfLinked-le :
      {k l : ℕ} (chain : Option Chain)
      → k ≤ l
      → IfLinked N shares hs k chain
      → IfLinked N shares hs l chain
  IfLinked-le none h p = tt
  IfLinked-le (some c) h p = IsLinked-le N shares hs h p

  pub on_model-Running :
      (per n : ℕ) (msg : Option DecodedMsg) (d : Dump)
      → 2 * n + 2 ≤ 256 ^ 4
      → IfCheap msg
      → IsValid d.model
      → d.model.n_levels ≡ 8
      → IsBounded (256 ^ 4) N d.model
      → IfLinked N shares hs (2 * n) d.chain
      → IfAccepting per (n + 1) d.writer
      → All ShowsAll d.out
      → Returns (IsRunning per (n + 1)) (on_model n msg d)
  unfolding on_model
  on_model-Running per n none d small cheap valid levels bounded linked accepting shown = record {
    valid = valid;
    levels = levels;
    bounded = bounded;
    linked = IfLinked-le d.chain (omega arith) linked;
    accepting = accepting;
    shown = shown;
  }
  on_model-Running per n (some msg) d small cheap valid levels bounded linked accepting shown =
      let m' = after_message d.model msg in
      let (valid', (events, e, full)) = on_message-Runs d.model msg valid in
      let (bounded', (bs, few)) : IsSent (256 ^ 4) N (omega arith) (m', events) =
        rw e at (on_message-IsSent (256 ^ 4) N (omega arith) d.model msg cheap bounded) in
      let full8 : All (IsFull 8) events = rw levels at full in
      let d' : Dump = record d { model = m' } in
      let (d'', e', s) =
        Returns-eq (IsStepped (2 * n + length events) d') (on_events n events d')
          (on_events-Stepped n (2 * n) events d' (omega (arith, few)) bs full8 linked shown) in
      rw (e, e')
        (record {
          valid = rw s.model_kept valid';
          levels =
              ap (λ (k : MarketModel). k.n_levels) s.model_kept
              ∙ n_levels-after_message d.model msg
              ∙ levels;
          bounded = rw s.model_kept bounded';
          linked = IfLinked-le d''.chain (omega (arith, few)) s.linked;
          accepting = rw s.writer_kept accepting;
          shown = s.shown;
        })
