-- ===== src/Trace/Lift.antt =====
-- A property that one event keeps of the strategy, the risk gate, the encoder and the order lines
-- holds of them at the end of a run of model/dump_trace.py.
use hft_rtl.Prelude.{Text, ℕ, ◌+◌, ◌≡◌, Bool, true, false, Option, none, some, List, [], ◌∷◌, ◌++◌}
use hft_rtl.Prelude.Bytes.{Bytes}
use hft_rtl.Prelude.Result.{ok, >>=-eq-ok}
use hft_rtl.Market
use hft_rtl.Market.{Event}
use hft_rtl.Itch.{parse_message}
use hft_rtl.Itch.Message.{DecodedMsg}
use hft_rtl.BinaryFile.{read_messages}
use hft_rtl.Trace.{
  Options, Dump, Chain, Summary, line_of, new_chain, chain_for, start, on_update, if_file, on_chain,
  on_event, on_events, on_writer, on_model, on_payload, on_payloads, close_writer, dump_trace,
}

module _ (P : Chain → Type 0)
    (keeps : (n : ℕ) (ev : Event) (c c' : Chain) → on_update n ev c ≡ ok c' → P c → P c') where
  abbrev pub Holds : Option Chain → Type 0
  Holds none = Unit
  Holds (some c) = P c

  if_file-Holds :
      (open_file : Bool) (n : ℕ) (ev : Event) (c : Chain) (chain' : Option Chain)
      → if_file open_file n ev c ≡ ok chain'
      → P c
      → Holds chain'
  unfolding if_file
  if_file-Holds false n ev c chain' e h = let is : some c ≡ chain' = cc in rw (← is) h
  if_file-Holds true n ev c chain' e h =
      let (c', e1, e2) = >>=-eq-ok (on_update n ev c) _ e in
      let is : some c' ≡ chain' = cc in rw (← is) (keeps n ev c c' e1 h)

  on_chain-Holds :
      (n : ℕ) (ev : Event) (chain chain' : Option Chain)
      → on_chain n ev chain ≡ ok chain'
      → Holds chain
      → Holds chain'
  unfolding on_chain
  on_chain-Holds n ev none chain' e h = let is : none ≡ chain' = cc in rw (← is) tt
  on_chain-Holds n ev (some c) chain' e h = if_file-Holds c.has_file n ev c chain' e h

  on_events-Holds :
      (n : ℕ) (events : List Event) (d d' : Dump)
      → on_events n events d ≡ ok d'
      → Holds d.chain
      → Holds d'.chain
  unfolding on_events on_event
  on_events-Holds n [] d d' e h = let is : d ≡ d' = cc in rw (← is) h
  on_events-Holds n (ev ∷ events) d d' e h =
      let (d1, e1, e2) = >>=-eq-ok (on_event n ev d) _ e in
      let (chain, e3, e4) = >>=-eq-ok (on_chain n ev d.chain) _ e1 in
      let is : record d { out = d.out ++ line_of n ev ∷ []; updates = d.updates + 1; chain = chain }
          ≡ d1 =
        cc e4 in
      let here : Holds d1.chain = rw (← is) (on_chain-Holds n ev d.chain chain e3 h) in
      on_events-Holds n events d1 d' e2 here

  on_model-Holds :
      (n : ℕ) (msg : Option DecodedMsg) (d d' : Dump)
      → on_model n msg d ≡ ok d'
      → Holds d.chain
      → Holds d'.chain
  unfolding on_model
  on_model-Holds n none d d' e h = let is : d ≡ d' = cc in rw (← is) h
  on_model-Holds n (some msg) d d' e h =
      let (reply, e1, e2) = >>=-eq-ok (Market.on_message d.model msg) _ e in
      on_events-Holds n reply.1 (record d { model = reply.0 }) d' e2 h

  on_payloads-Holds :
      (n : ℕ) (payloads : List Bytes) (d d' : Dump)
      → on_payloads n payloads d ≡ ok d'
      → Holds d.chain
      → Holds d'.chain
  unfolding on_payloads on_payload
  on_payloads-Holds n [] d d' e h = let is : d ≡ d' = cc in rw (← is) h
  on_payloads-Holds n (payload ∷ payloads) d d' e h =
      let (d1, e1, e2) = >>=-eq-ok (on_payload n payload d) _ e in
      let (writer, e3, e4) = >>=-eq-ok (on_writer payload d.writer) _ e1 in
      let (msg, e5, e6) = >>=-eq-ok (parse_message payload) _ e4 in
      on_payloads-Holds (n + 1) payloads d1 d' e2
        (on_model-Holds n msg (record d { messages = n + 1; writer = writer }) d1 e6 h)

  chain_for-Holds : (path : Option Text) (c : Chain) → P c → Holds (chain_for path c)
  chain_for-Holds none c h = tt
  chain_for-Holds (some path) c h = h

  start-Holds : (o : Options) → P (new_chain o) → Holds (start o).chain
  start-Holds o h = chain_for-Holds o.orders_out (new_chain o) h

  pub dump_trace-Holds :
      (o : Options) (capture : Bytes) (d : Dump) (s : Summary)
      → dump_trace o capture ≡ ok (d, s)
      → P (new_chain o)
      → Holds d.chain
  unfolding dump_trace
  dump_trace-Holds o capture d s e h =
      let payloads = read_messages o.limit capture in
      let (d1, e1, e2) = >>=-eq-ok (on_payloads 0 payloads (start o)) _ e in
      let (writer, e3, e4) = >>=-eq-ok (close_writer d1.writer) _ e2 in
      let is : record d1 { writer = writer } ≡ d = cc e4 in
      rw (← is) (on_payloads-Holds 0 payloads (start o) d1 e1 (start-Holds o h))
