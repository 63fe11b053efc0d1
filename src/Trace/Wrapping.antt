-- ===== src/Trace/Wrapping.antt =====
-- The stream that model/dump_trace.py writes with `--wrap-out`, against the messages that it reads.
use hft_rtl.Prelude.{
  ℕ, ◌+◌, ◌≡◌, refl, sym, ap, ◌∙◌, Option, none, some, List, [], ◌∷◌, ◌++◌, arith, true,
}
use hft_rtl.Prelude.Bytes.{Bytes, join}
use hft_rtl.Prelude.Result.{ok, >>=-eq-ok}
use hft_rtl.Market
use hft_rtl.Market.{Event}
use hft_rtl.Itch.{parse_message}
use hft_rtl.Itch.Message.{DecodedMsg}
use hft_rtl.Mold
use hft_rtl.Mold.{MoldWriter, write_all, wrap}
use hft_rtl.Mold.Wrap.{write_all-wrap}
use hft_rtl.BinaryFile.{read_messages}
use hft_rtl.Trace.{
  line_of, is_path, Options, Dump, Summary, session, start, on_chain, on_event, on_events,
  on_writer, on_model, on_payload, on_payloads, close_writer, dump_trace,
}

-- Events leave the writer alone.
on_events-writer :
    (n : ℕ) (events : List Event) (d d' : Dump)
    → on_events n events d ≡ ok d'
    → d'.writer ≡ d.writer
unfolding on_events on_event
on_events-writer n [] d d' e = let is : d ≡ d' = cc in ap (λ (k : Dump). k.writer) (sym is)
on_events-writer n (ev ∷ events) d d' e =
    let (d1, e1, e2) = >>=-eq-ok (on_event n ev d) _ e in
    let (chain, e3, e4) = >>=-eq-ok (on_chain n ev d.chain) _ e1 in
    let is : record d { out = d.out ++ line_of n ev ∷ []; updates = d.updates + 1; chain = chain }
        ≡ d1 =
      cc e4 in
    on_events-writer n events d1 d' e2 ∙ ap (λ (k : Dump). k.writer) (sym is)

on_model-writer :
    (n : ℕ) (msg : Option DecodedMsg) (d d' : Dump)
    → on_model n msg d ≡ ok d'
    → d'.writer ≡ d.writer
unfolding on_model
on_model-writer n none d d' e = let is : d ≡ d' = cc in ap (λ (k : Dump). k.writer) (sym is)
on_model-writer n (some msg) d d' e =
    let (reply, e1, e2) = >>=-eq-ok (Market.on_message d.model msg) _ e in
    on_events-writer n reply.1 (record d { model = reply.0 }) d' e2

on_payload-writer :
    (n : ℕ) (payload : Bytes) (d d' : Dump)
    → on_payload n payload d ≡ ok d'
    → on_writer payload d.writer ≡ ok d'.writer
unfolding on_payload
on_payload-writer n payload d d' e =
    let (writer, e1, e2) = >>=-eq-ok (on_writer payload d.writer) _ e in
    let (msg, e3, e4) = >>=-eq-ok (parse_message payload) _ e2 in
    let same = on_model-writer n msg (record d { messages = n + 1; writer = writer }) d' e4 in
    rw same e1

-- The loop, and then the closing, is `write_all` on the writer.
on_payloads-write_all :
    (n : ℕ) (payloads : List Bytes) (d d' : Dump) (w : MoldWriter) (writer : Option MoldWriter)
    → on_payloads n payloads d ≡ ok d'
    → d.writer ≡ some w
    → close_writer d'.writer ≡ ok writer
    → (w' : MoldWriter) × (writer ≡ some w') × (write_all w payloads ≡ ok w')
unfolding on_payloads write_all close_writer on_writer
on_payloads-write_all n [] d d' w writer e at closed =
    let same_dump : d ≡ d' = cc in
    let is : d.writer ≡ d'.writer = ap (λ (k : Dump). k.writer) same_dump in
    let here : close_writer (some w) ≡ ok writer = rw (← is, at) at closed in
    let (w', e1, e2) = >>=-eq-ok (Mold.close w) _ here in
    let same : writer ≡ some w' = cc in (w', same, e1)
on_payloads-write_all n (payload ∷ payloads) d d' w writer e at closed =
    let (d1, e1, e2) = >>=-eq-ok (on_payload n payload d) _ e in
    let wrote : on_writer payload (some w) ≡ ok d1.writer =
      rw at at (on_payload-writer n payload d d1 e1) in
    let (w1, e3, e4) = >>=-eq-ok (Mold.add w payload) _ wrote in
    let next : d1.writer ≡ some w1 = cc in
    rw e3 (on_payloads-write_all (n + 1) payloads d1 d' w1 writer e2 next closed)

-- If a run with a path in `--wrap-out` ends without an exception, the file holds the joined packets of `wrap` on
-- exactly the messages that the model was fed, numbered from 1 on.
pub dump_trace-wraps :
    (o : Options) (capture : Bytes) (d : Dump) (s : Summary)
    → dump_trace o capture ≡ ok (d, s)
    → is_path o.wrap_out ≡ true
    → (w : MoldWriter) × (packets : List Bytes) × (d.writer ≡ some w)
      × (wrap (read_messages o.limit capture) session o.msgs_per_packet 1 none ≡ ok packets)
      × (w.f ≡ join packets)
unfolding dump_trace close_writer
dump_trace-wraps o capture d s e on =
    let payloads = read_messages o.limit capture in
    let (d1, e1, e2) = >>=-eq-ok (on_payloads 0 payloads (start o)) _ e in
    let (writer, e3, e4) = >>=-eq-ok (close_writer d1.writer) _ e2 in
    let there : (start o).writer ≡ some (Mold.init [] session o.msgs_per_packet 1) = rw on refl in
    let w0 = Mold.init [] session o.msgs_per_packet 1 in
    let (w, is, wrote) = on_payloads-write_all 0 payloads (start o) d1 w0 writer e1 there e3 in
    let made = sym (write_all-wrap [] session o.msgs_per_packet 1 payloads) ∙ wrote in
    let (packets, e5, e6) = >>=-eq-ok (wrap payloads session o.msgs_per_packet 1 none) _ made in
    let written : w.f ≡ join packets = ground (arith, e6) in
    let closed : record d1 { writer = writer } ≡ d = cc e4 in
    (w, packets, rw (← closed) is, e5, written)
