-- ===== src/Trace/Shown.antt =====
-- The lines of the book trace of model/dump_trace.py show all levels.
use hft_rtl.Prelude.{
  ℕ, ◌+◌, ◌≡◌, refl, ◌∙◌, Option, none, some, List, [], ◌∷◌, ◌++◌, arith, All, All-append_one,
}
use hft_rtl.Prelude.Bytes.{Bytes}
use hft_rtl.Prelude.Result.{ok, >>=-eq-ok}
use hft_rtl.Market.{Event}
use hft_rtl.Market.Invariant.{IsValid, IsFull}
use hft_rtl.Market.Initial.{n_levels-after_message}
use hft_rtl.Market.Effect.{after_message}
use hft_rtl.Market.Handlers.{on_message-Runs}
use hft_rtl.Market.Feed.{init-IsValid}
use hft_rtl.Itch.{parse_message}
use hft_rtl.Itch.Message.{DecodedMsg}
use hft_rtl.BinaryFile.{read_messages}
use hft_rtl.Trace.Linked.{ShowsAll}
use hft_rtl.Trace.{
  Options, Dump, Summary, line_of, start, on_chain, on_event, on_events, on_writer, on_model,
  on_payload, on_payloads, close_writer, dump_trace,
}

record IsShown (d : Dump) : Type 0 where
  valid : IsValid d.model
  levels : d.model.n_levels ≡ 8
  lines : All ShowsAll d.out

on_events-Shown :
    (n : ℕ) (events : List Event) (d d' : Dump)
    → on_events n events d ≡ ok d'
    → All (IsFull 8) events
    → IsShown d
    → IsShown d'
unfolding on_events on_event
on_events-Shown n [] d d' e full h = let is : d ≡ d' = cc in rw (← is) h
on_events-Shown n (ev ∷ events) d d' e (f, full) h =
    let (d1, e1, e2) = >>=-eq-ok (on_event n ev d) _ e in
    let (chain, e3, e4) = >>=-eq-ok (on_chain n ev d.chain) _ e1 in
    let next : Dump = record d {
      out = d.out ++ line_of n ev ∷ [];
      updates = d.updates + 1;
      chain = chain;
    } in
    let is : next ≡ d1 = cc e4 in
    let shown : IsShown next = record {
      valid = h.valid;
      levels = h.levels;
      lines = All-append_one ShowsAll d.out (line_of n ev) h.lines (f.bids, f.asks);
    } in
    on_events-Shown n events d1 d' e2 full (rw is at shown)

on_model-Shown :
    (n : ℕ) (msg : Option DecodedMsg) (d d' : Dump)
    → on_model n msg d ≡ ok d'
    → IsShown d
    → IsShown d'
unfolding on_model
on_model-Shown n none d d' e h = let is : d ≡ d' = cc in rw (← is) h
on_model-Shown n (some msg) d d' e h =
    let (valid, (events, e', full)) = on_message-Runs d.model msg h.valid in
    let full8 : All (IsFull 8) events = rw h.levels at full in
    let run = rw e' at e in
    on_events-Shown n events (record d { model = after_message d.model msg }) d' run full8
      (record {
        valid = valid;
        levels = n_levels-after_message d.model msg ∙ h.levels;
        lines = h.lines;
      })

on_payloads-Shown :
    (n : ℕ) (payloads : List Bytes) (d d' : Dump)
    → on_payloads n payloads d ≡ ok d'
    → IsShown d
    → IsShown d'
unfolding on_payloads on_payload
on_payloads-Shown n [] d d' e h = let is : d ≡ d' = cc in rw (← is) h
on_payloads-Shown n (payload ∷ payloads) d d' e h =
    let (d1, e1, e2) = >>=-eq-ok (on_payload n payload d) _ e in
    let (writer, e3, e4) = >>=-eq-ok (on_writer payload d.writer) _ e1 in
    let (msg, e5, e6) = >>=-eq-ok (parse_message payload) _ e4 in
    on_payloads-Shown (n + 1) payloads d1 d' e2 (
      on_model-Shown n msg (record d { messages = n + 1; writer = writer }) d1 e6
        (record { valid = h.valid; levels = h.levels; lines = h.lines }))

pub dump_trace-ShowsAll :
    (o : Options) (capture : Bytes) (d : Dump) (s : Summary)
    → dump_trace o capture ≡ ok (d, s)
    → All ShowsAll d.out
unfolding dump_trace
dump_trace-ShowsAll o capture d s e =
    let payloads = read_messages o.limit capture in
    let (d1, e1, e2) = >>=-eq-ok (on_payloads 0 payloads (start o)) _ e in
    let (writer, e3, e4) = >>=-eq-ok (close_writer d1.writer) _ e2 in
    let is : record d1 { writer = writer } ≡ d = cc e4 in
    let shown =
      on_payloads-Shown 0 payloads (start o) d1 e1
        (record { valid = init-IsValid o.symbols 8 (omega arith); levels = refl; lines = tt }) in
    rw (← is) shown.lines
