-- ===== src/Trace/Ends.antt =====
-- `dump_trace` of model/dump_trace.py ends without an exception.
use hft_rtl.Prelude.{
  Text, ℕ, ◌+◌, ◌*◌, ◌^◌, ◌≤◌, ◌<◌, ◌≡◌, refl, inl, inr, Option, none, some, List, [], ◌∷◌, arith,
  length, length-replicate, All, Bool-cases,
}
use hft_rtl.Prelude.Bytes.{Bytes, IsByte}
use hft_rtl.Prelude.Int.{ℤ, pos}
use hft_rtl.Prelude.Result.{Returns, Returns-bind}
use hft_rtl.Market.Initial.{init-IsBounded}
use hft_rtl.Market.Feed.{init-IsValid}
use hft_rtl.Itch.{parse_message}
use hft_rtl.Itch.Total.{IsReadable, IfCheap, parse_message-Returns}
use hft_rtl.Strategy.{State, neutral}
use hft_rtl.Ouch.Total.{IsName, init-IsReady}
use hft_rtl.Mold
use hft_rtl.Mold.{MoldWriter}
use hft_rtl.Mold.Total.{IsAccepting, add-Returns, close-Returns, init-IsAccepting}
use hft_rtl.BinaryFile.{read_messages}
use hft_rtl.BinaryFile.Payloads.{IsPayload, read_messages-IsPayload}
use hft_rtl.Trace.Linked.{ShowsAll, IsLinked, IfLinked}
use hft_rtl.Trace.Total.{IfAccepting, IsRunning, on_model-Running}
use hft_rtl.Trace.{
  Chain, is_path, Options, Dump, Summary, session, new_chain, chain_for, start, on_writer,
  on_payload, on_payloads, close_writer, dump_trace,
}

module _ (N shares : ℕ) (hs : shares < 256 ^ 4) (per : ℕ) (some_ : 0 < per)
    (most : per < 256 ^ 2) where
  on_writer-Accepting :
      (n : ℕ) (payload : Bytes) (writer : Option MoldWriter)
      → 1 + (n + 1) < 256 ^ 8
      → IsPayload payload
      → IfAccepting N shares hs per n writer
      → Returns (IfAccepting N shares hs per (n + 1)) (on_writer payload writer)
  unfolding on_writer
  on_writer-Accepting n payload none small p h = tt
  on_writer-Accepting n payload (some w) small (_, fit) h =
      Returns-bind (IsAccepting per (n + 1)) (IfAccepting N shares hs per (n + 1))
        (Mold.add w payload) _ (add-Returns per n w payload some_ most small fit h)
        (λ w' accepting. accepting)

  on_payload-Running :
      (n : ℕ) (payload : Bytes) (d : Dump)
      → 2 * n + 2 ≤ 256 ^ 4
      → IsPayload payload
      → IsReadable payload
      → IsRunning N shares hs per n d
      → Returns (IsRunning N shares hs per (n + 1)) (on_payload n payload d)
  unfolding on_payload
  on_payload-Running n payload d small p readable h =
      Returns-bind (IfAccepting N shares hs per (n + 1)) (IsRunning N shares hs per (n + 1))
        (on_writer payload d.writer) _
        (on_writer-Accepting n payload d.writer (omega arith) p h.accepting)
        (λ writer accepting.
          Returns-bind IfCheap (IsRunning N shares hs per (n + 1)) (parse_message payload) _
            (parse_message-Returns payload p.0 readable)
            (λ msg cheap.
              on_model-Running N shares hs per n msg
                (record d { messages = n + 1; writer = writer }) small cheap h.valid h.levels
                h.bounded h.linked accepting h.shown))

  on_payloads-Running :
      (n : ℕ) (payloads : List Bytes) (d : Dump)
      → 2 * (n + length payloads) ≤ 256 ^ 4
      → All IsPayload payloads
      → All IsReadable payloads
      → IsRunning N shares hs per n d
      → Returns (IsRunning N shares hs per (n + length payloads)) (on_payloads n payloads d)
  unfolding on_payloads
  on_payloads-Running n [] d small p r h = let same : n + 0 ≡ n = omega arith in rw same h
  on_payloads-Running n (payload ∷ payloads) d small (p, ps) (r, rs) h =
      let count : n + length (payload ∷ payloads) ≡ n + 1 + length payloads = omega arith in
      rw count (
        Returns-bind (IsRunning N shares hs per (n + 1))
          (IsRunning N shares hs per (n + 1 + length payloads)) (on_payload n payload d) _
          (on_payload-Running n payload d (omega arith) p r h)
          (λ d' h'. on_payloads-Running (n + 1) payloads d' (omega arith) ps rs h'))

  close_writer-Returns :
      (n : ℕ) (writer : Option MoldWriter)
      → 1 + n < 256 ^ 8
      → IfAccepting N shares hs per n writer
      → Returns (λ (w : Option MoldWriter). Unit) (close_writer writer)
  unfolding close_writer
  close_writer-Returns n none small h = tt
  close_writer-Returns n (some w) small h =
      Returns-bind (λ (w : MoldWriter). Unit) (λ (w : Option MoldWriter). Unit) (Mold.close w) _
        (close-Returns per n w small h) (λ w' done. tt)

new_chain-IsLinked :
    (o : Options) (hs : o.order_shares < 256 ^ 4)
    → All IsName o.symbols
    → IsLinked (length o.symbols) o.order_shares hs 0 (new_chain o)
new_chain-IsLinked o hs names = record {
  strategy_sized = record {
    states = length-replicate {A = State} (length o.symbols) neutral;
    counts = length-replicate {A = Option ℕ} (length o.symbols) none;
    sends = refl;
  };
  positions = length-replicate {A = ℤ} (length o.symbols) (pos 0);
  encoder = init-IsReady o.symbols names;
  few = omega arith;
}

chain_for-Linked :
    (N shares : ℕ) (hs : shares < 256 ^ 4) (path : Option Text) (c : Chain)
    → IsLinked N shares hs 0 c
    → IfLinked N shares hs 0 (chain_for path c)
chain_for-Linked N shares hs none c h = tt
chain_for-Linked N shares hs (some path) c h = h

start-IsRunning :
    (o : Options) (hs : o.order_shares < 256 ^ 4)
    → All IsName o.symbols
    → 0 < o.msgs_per_packet
    → IsRunning (length o.symbols) o.order_shares hs o.msgs_per_packet 0 (start o)
start-IsRunning o hs names some_ = record {
  valid = init-IsValid o.symbols 8 (omega arith);
  levels = refl;
  bounded = init-IsBounded (256 ^ 4) o.symbols 8;
  linked =
      chain_for-Linked (length o.symbols) o.order_shares hs o.orders_out (new_chain o)
        (new_chain-IsLinked o hs names);
  accepting = elim (Bool-cases (is_path o.wrap_out)) [
    | inl e ↦ rw e (init-IsAccepting [] session o.msgs_per_packet some_)
    | inr e ↦ rw e tt
  ];
  shown = tt;
}

-- On a capture of bytes, `dump_trace` ends without an exception, and every line of its book trace
-- shows eight levels on both sides, when the symbols are ASCII of at most eight characters, an order
-- is below 2 ** 32 shares, a packet takes at least one and less than 65536 messages, the adds that
-- are read have an ASCII side and symbol, and at most 2 ** 31 messages are read.
pub dump_trace-Returns :
    (o : Options) (capture : Bytes)
    → All IsByte capture
    → All IsName o.symbols
    → o.order_shares < 256 ^ 4
    → 0 < o.msgs_per_packet
    → o.msgs_per_packet < 256 ^ 2
    → All IsReadable (read_messages o.limit capture)
    → 2 * length (read_messages o.limit capture) ≤ 256 ^ 4
    → Returns (λ (run : Dump × Summary). All ShowsAll run.0.out) (dump_trace o capture)
unfolding dump_trace
dump_trace-Returns o capture bytes names hs some_ most readable short =
    let payloads = read_messages o.limit capture in
    let N = length o.symbols in
    let n = 0 + length payloads in
    Returns-bind (IsRunning N o.order_shares hs o.msgs_per_packet n)
      (λ (run : Dump × Summary). All ShowsAll run.0.out) (on_payloads 0 payloads (start o)) _
      (on_payloads-Running N o.order_shares hs o.msgs_per_packet some_ most 0 payloads (start o)
        (omega (arith, short)) (read_messages-IsPayload o.limit capture bytes) readable
        (start-IsRunning o hs names some_))
      (λ d h.
        Returns-bind (λ (w : Option MoldWriter). Unit)
          (λ (run : Dump × Summary). All ShowsAll run.0.out) (close_writer d.writer) _
          (close_writer-Returns N o.order_shares hs o.msgs_per_packet some_ most n d.writer
            (omega (arith, short)) h.accepting)
          (λ w done. h.shown))
