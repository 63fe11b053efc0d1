-- ===== src/Trace/Tally.antt =====
-- The counters that model/dump_trace.py reports, against what it has read and written.
use hft_rtl.Prelude.{
  Text, Bool, true, false, ℕ, ◌+◌, ◌≡◌, refl, ◌∙◌, Option, none, some, List, [], ◌∷◌, ◌++◌, arith,
  length, length-append, Bool-cases, inl, inr,
}
use hft_rtl.Prelude.Bytes.{Bytes}
use hft_rtl.Prelude.Result.{ok, >>=-eq-ok}
use hft_rtl.Market
use hft_rtl.Market.{MarketModel, Event}
use hft_rtl.Itch.{parse_message}
use hft_rtl.Itch.Message.{DecodedMsg}
use hft_rtl.Mold
use hft_rtl.Mold.{MoldWriter}
use hft_rtl.Mold.Count.{add-messages, close-messages}
use hft_rtl.BinaryFile.{read_messages}
use hft_rtl.Trace.{
  is_path, Options, Dump, Chain, line_of, Summary, chain_for, start, on_update, if_file, on_chain,
  on_event, on_events, on_writer, on_model, on_payload, on_payloads, close_writer, dump_trace,
  Counts, Wrapped, counts_of, wrapped_of, summary_of, new_chain, session,
}
use hft_rtl.Trace.ChainTally.{ChainTallied, on_update-ChainTallied}

-- The counters of a run agree with what it has read and written.
pub record IsTallied (d : Dump) : Type 0 where
  pub updates_written : d.updates ≡ length d.out
  pub chain_tallied : (c : Chain) → d.chain ≡ some c → ChainTallied c
  pub all_wrapped : (w : MoldWriter) → d.writer ≡ some w → w.messages ≡ d.messages

if_file-ChainTallied :
    (open_file : Bool) (n : ℕ) (ev : Event) (c c' : Chain)
    → if_file open_file n ev c ≡ ok (some c')
    → ChainTallied c
    → ChainTallied c'
unfolding if_file
if_file-ChainTallied false n ev c c' e t = let is : c ≡ c' = cc in rw (← is) t
if_file-ChainTallied true n ev c c' e t =
    let (c2, e1, e2) = >>=-eq-ok (on_update n ev c) _ e in
    let is : c2 ≡ c' = cc in on_update-ChainTallied n ev c c' (rw (← is) e1) t

on_chain-ChainTallied :
    (n : ℕ) (ev : Event) (chain : Option Chain) (c' : Chain)
    → on_chain n ev chain ≡ ok (some c')
    → ((c : Chain) → chain ≡ some c → ChainTallied c)
    → ChainTallied c'
unfolding on_chain
on_chain-ChainTallied n ev none c' e t = cc
on_chain-ChainTallied n ev (some c) c' e t = if_file-ChainTallied c.has_file n ev c c' e (t c refl)

on_event-IsTallied :
    (n : ℕ) (ev : Event) (d d' : Dump)
    → on_event n ev d ≡ ok d'
    → IsTallied d
    → IsTallied d' × (d'.messages ≡ d.messages)
unfolding on_event
on_event-IsTallied n ev d d' e t =
    let (chain, e1, e2) = >>=-eq-ok (on_chain n ev d.chain) _ e in
    let is : record d { out = d.out ++ line_of n ev ∷ []; updates = d.updates + 1; chain = chain }
        ≡ d' =
      cc e2 in
    let longer = length-append d.out (line_of n ev ∷ []) in
    rw (← is) (
      record {
        updates_written = omega (arith, longer, t.updates_written);
        chain_tallied =
            λ c here. on_chain-ChainTallied n ev d.chain c (rw here at e1) t.chain_tallied;
        all_wrapped = t.all_wrapped;
      },
      refl,
    )

on_events-IsTallied :
    (n : ℕ) (events : List Event) (d d' : Dump)
    → on_events n events d ≡ ok d'
    → IsTallied d
    → IsTallied d' × (d'.messages ≡ d.messages)
unfolding on_events
on_events-IsTallied n [] d d' e t = let is : d ≡ d' = cc in rw (← is) (t, refl)
on_events-IsTallied n (ev ∷ events) d d' e t =
    let (d1, e1, e2) = >>=-eq-ok (on_event n ev d) _ e in
    let (t1, m1) = on_event-IsTallied n ev d d1 e1 t in
    let (t2, m2) = on_events-IsTallied n events d1 d' e2 t1 in (t2, m2 ∙ m1)

on_writer-messages :
    (payload : Bytes) (writer : Option MoldWriter) (w' : MoldWriter) (n : ℕ)
    → on_writer payload writer ≡ ok (some w')
    → ((w : MoldWriter) → writer ≡ some w → w.messages ≡ n)
    → w'.messages ≡ n + 1
unfolding on_writer
on_writer-messages payload none w' n e t = cc
on_writer-messages payload (some w) w' n e t =
    let (w2, e1, e2) = >>=-eq-ok (Mold.add w payload) _ e in
    let is : w2 ≡ w' = cc in omega (arith, add-messages w w' payload (rw (← is) e1), t w refl)

on_model-IsTallied :
    (n : ℕ) (msg : Option DecodedMsg) (d d' : Dump)
    → on_model n msg d ≡ ok d'
    → IsTallied d
    → IsTallied d' × (d'.messages ≡ d.messages)
unfolding on_model
on_model-IsTallied n none d d' e t = let is : d ≡ d' = cc in rw (← is) (t, refl)
on_model-IsTallied n (some msg) d d' e t =
    let (reply, e1, e2) = >>=-eq-ok (Market.on_message d.model msg) _ e in
    on_events-IsTallied n reply.1 (record d { model = reply.0 }) d' e2
      (record {
        updates_written = t.updates_written;
        chain_tallied = t.chain_tallied;
        all_wrapped = t.all_wrapped;
      })

on_payload-IsTallied :
    (n : ℕ) (payload : Bytes) (d d' : Dump)
    → on_payload n payload d ≡ ok d'
    → d.messages ≡ n
    → IsTallied d
    → IsTallied d' × (d'.messages ≡ n + 1)
unfolding on_payload
on_payload-IsTallied n payload d d' e here t =
    let (writer, e1, e2) = >>=-eq-ok (on_writer payload d.writer) _ e in
    let (msg, e3, e4) = >>=-eq-ok (parse_message payload) _ e2 in
    let read : Dump = record d { messages = n + 1; writer = writer } in
    let t1 : IsTallied read = record {
      updates_written = t.updates_written;
      chain_tallied = t.chain_tallied;
      all_wrapped = λ w at.
          on_writer-messages payload d.writer w n (rw at at e1)
            (λ w0 e0. t.all_wrapped w0 e0 ∙ here);
    } in
    on_model-IsTallied n msg read d' e4 t1

on_payloads-IsTallied :
    (n : ℕ) (payloads : List Bytes) (d d' : Dump)
    → on_payloads n payloads d ≡ ok d'
    → d.messages ≡ n
    → IsTallied d
    → IsTallied d' × (d'.messages ≡ n + length payloads)
unfolding on_payloads
on_payloads-IsTallied n [] d d' e here t =
    let is : d ≡ d' = cc in rw (← is) (t, omega (arith, here))
on_payloads-IsTallied n (payload ∷ payloads) d d' e here t =
    let (d1, e1, e2) = >>=-eq-ok (on_payload n payload d) _ e in
    let (t1, m1) = on_payload-IsTallied n payload d d1 e1 here t in
    let (t2, m2) = on_payloads-IsTallied (n + 1) payloads d1 d' e2 m1 t1 in (t2, omega (arith, m2))

chain_for_is : (path : Option Text) (c c' : Chain) → chain_for path c ≡ some c' → c ≡ c'
chain_for_is none c c' e = cc
chain_for_is (some path) c c' e = cc

start-ChainTallied : (o : Options) (c : Chain) → (start o).chain ≡ some c → ChainTallied c
start-ChainTallied o c here =
    rw (← chain_for_is o.orders_out (new_chain o) c here)
      (record { answered = refl; encoded = refl; written = refl })

start-messages : (o : Options) (w : MoldWriter) → (start o).writer ≡ some w → w.messages ≡ 0
start-messages o w here = elim (Bool-cases (is_path o.wrap_out)) [
  | inl on ↦
      let is : some (Mold.init [] session o.msgs_per_packet 1) ≡ some w = rw on at here in
      let at : Mold.init [] session o.msgs_per_packet 1 ≡ w = cc is in rw (← at) refl
  | inr off ↦ let is : none ≡ some w = rw off at here in cc is
]

start-IsTallied : (o : Options) → IsTallied (start o)
start-IsTallied o = record {
  updates_written = refl;
  chain_tallied = λ c here. start-ChainTallied o c here;
  all_wrapped = λ w here. start-messages o w here;
}

-- What a summary says of a run.
pub record IsReported (payloads : List Bytes) (d : Dump) (s : Summary) : Type 0 where
  pub messages_read : s.messages ≡ length payloads
  pub updates_written : s.updates ≡ length d.out
  pub intents_answered :
      (c : Counts)
      → s.counts ≡ some c
      → c.intents
        ≡ c.accepts + (c.sanity_rejects + (c.collar_rejects + (c.rate_rejects + c.pos_rejects)))
  pub orders_written :
      (chain : Chain) (c : Counts)
      → d.chain ≡ some chain
      → s.counts ≡ some c
      → (c.orders ≡ c.accepts) × (length chain.orders ≡ c.accepts)
  pub messages_wrapped : (w : Wrapped) → s.wrapped ≡ some w → w.wrapped_messages ≡ s.messages

answered_of :
    (chain : Option Chain) (c : Counts)
    → counts_of chain ≡ some c
    → ((k : Chain) → chain ≡ some k → ChainTallied k)
    → c.intents
      ≡ c.accepts + (c.sanity_rejects + (c.collar_rejects + (c.rate_rejects + c.pos_rejects)))
answered_of none c here t = cc
answered_of (some k) c here t = let tallied = t k refl in ground (arith, tallied.answered)

ordered_of :
    (chain : Option Chain) (k : Chain) (c : Counts)
    → chain ≡ some k
    → counts_of chain ≡ some c
    → ((k : Chain) → chain ≡ some k → ChainTallied k)
    → (c.orders ≡ c.accepts) × (length k.orders ≡ c.accepts)
ordered_of none k c at here t = cc
ordered_of (some k0) k c at here t =
    let is : k0 ≡ k = cc in
    let tallied = t k0 refl in rw (← is) (ground (arith, tallied.encoded, tallied.written))

wrapped_all :
    (writer : Option MoldWriter) (w : Wrapped) (n : ℕ)
    → wrapped_of writer ≡ some w
    → ((w0 : MoldWriter) → writer ≡ some w0 → w0.messages ≡ n)
    → w.wrapped_messages ≡ n
wrapped_all none w n here t = cc
wrapped_all (some w0) w n here t = let counted = t w0 refl in ground (arith, counted)

IsReported-summary_of :
    (payloads : List Bytes) (d : Dump)
    → d.messages ≡ length payloads
    → IsTallied d
    → IsReported payloads d (summary_of d)
IsReported-summary_of payloads d m t = record {
  messages_read = m;
  updates_written = t.updates_written;
  intents_answered = λ c here. answered_of d.chain c here t.chain_tallied;
  orders_written = λ chain c at here. ordered_of d.chain chain c at here t.chain_tallied;
  messages_wrapped = λ w here. wrapped_all d.writer w d.messages here t.all_wrapped;
}

close_writer-messages :
    (writer : Option MoldWriter) (w' : MoldWriter) (n : ℕ)
    → close_writer writer ≡ ok (some w')
    → ((w : MoldWriter) → writer ≡ some w → w.messages ≡ n)
    → w'.messages ≡ n
unfolding close_writer
close_writer-messages none w' n e t = cc
close_writer-messages (some w) w' n e t =
    let (w2, e1, e2) = >>=-eq-ok (Mold.close w) _ e in
    let is : w2 ≡ w' = cc in close-messages w w' (rw (← is) e1) ∙ t w refl

-- If a run ends without an exception, its summary counts every message that was read and every line
-- of the book trace; with `--orders-out`, every intent is an accept or one of the four kinds of
-- reject, and the orders encoded, the lines of the order trace and the accepts are equally many; with
-- `--wrap-out`, every message was wrapped.
pub dump_trace-IsReported :
    (o : Options) (capture : Bytes) (d : Dump) (s : Summary)
    → dump_trace o capture ≡ ok (d, s)
    → IsReported (read_messages o.limit capture) d s
unfolding dump_trace
dump_trace-IsReported o capture d s e =
    let payloads = read_messages o.limit capture in
    let (d1, e1, e2) = >>=-eq-ok (on_payloads 0 payloads (start o)) _ e in
    let (writer, e3, e4) = >>=-eq-ok (close_writer d1.writer) _ e2 in
    let (t1, m1) = on_payloads-IsTallied 0 payloads (start o) d1 e1 refl (start-IsTallied o) in
    let closed : Dump = record d1 { writer = writer } in
    let t : IsTallied closed = record {
      updates_written = t1.updates_written;
      chain_tallied = t1.chain_tallied;
      all_wrapped =
          λ w here. close_writer-messages d1.writer w d1.messages (rw here at e3) t1.all_wrapped;
    } in
    let same_dump : closed ≡ d = cc e4 in
    let same_summary : summary_of closed ≡ s = cc e4 in
    rw (← same_summary, ← same_dump) (IsReported-summary_of payloads closed (omega (arith, m1)) t)
