-- ===== src/Trace.antt =====
-- model/dump_trace.py: `dump_trace`, from the bytes of a capture to the lines of the two traces, the
-- wrapped stream and the summary. Lines are the values that they print. An exception ends the run, so
-- what has been written until then is not kept.
pub mod ChainTally
pub mod Tally
pub mod Wrapping
pub mod Lift
pub mod Numbering
pub mod Exposure
pub mod Linked
pub mod Total
pub mod Ends
pub mod Shown
pub mod Command
use hft_rtl.Prelude.{
  ℕ, ◌+◌, Bool, true, false, Option, none, some, List, [], ◌∷◌, ◌++◌, if◌then◌else◌, Text, length,
  take, drop,
}
use hft_rtl.Prelude.Bytes.{Bytes, ascii}
use hft_rtl.Prelude.Result.{Result, ok, ◌>>=◌}
use hft_rtl.Book.{Level}
use hft_rtl.Market
use hft_rtl.Market.{MarketModel, Event}
use hft_rtl.Itch.{parse_message}
use hft_rtl.Itch.Message.{DecodedMsg}
use hft_rtl.Strategy
use hft_rtl.Strategy.{Strategy, Intent}
use hft_rtl.Risk
use hft_rtl.Risk.{RiskGate}
use hft_rtl.Ouch
use hft_rtl.Ouch.{OuchEncoder}
use hft_rtl.Mold
use hft_rtl.Mold.{MoldWriter}
use hft_rtl.BinaryFile.{read_messages}

-- The arguments, without the paths of the capture and of the book trace. No number is negative.
pub record Options : Type 0 where
  pub symbols : List Text
  pub limit : Option ℕ
  pub wrap_out : Option Text
  pub msgs_per_packet : ℕ
  pub orders_out : Option Text
  pub thresh_log2 : ℕ
  pub cooldown_updates : ℕ
  pub order_shares : ℕ
  pub max_position : ℕ
  pub min_order_spacing : ℕ
  pub collar_shift : ℕ

-- A line of the book trace.
pub record Line : Type 0 where
  pub n : ℕ
  pub symbol_idx : ℕ
  pub bid : List Level
  pub ask : List Level

-- A line of the order trace; `raw` are the bytes that the line shows in hexadecimal.
pub record OrderLine : Type 0 where
  pub n : ℕ
  pub token : Text
  pub side : Text
  pub symbol_idx : ℕ
  pub shares : ℕ
  pub price : ℕ
  pub raw : Bytes

-- What turns events into orders, whether there is a file for them, and the lines it has written.
pub record Chain : Type 0 where
  pub strategy : Strategy
  pub risk : RiskGate
  pub ouch : OuchEncoder
  pub has_file : Bool
  pub orders : List OrderLine

-- The local variables of `dump_trace`, and what is in the files.
pub record Dump : Type 0 where
  pub model : MarketModel
  pub messages : ℕ
  pub updates : ℕ
  pub chain : Option Chain
  pub writer : Option MoldWriter
  pub out : List Line

abbrev pub session : Bytes
session = b'S' ∷ b'E' ∷ b'S' ∷ b'S' ∷ b'I' ∷ b'O' ∷ b'N' ∷ b'0' ∷ b'0' ∷ b'1' ∷ []

-- A path that is `None` or empty opens no file.
abbrev pub is_path : Option Text → Bool
is_path none = false
is_path (some []) = false
is_path (some (c ∷ cs)) = true

abbrev pub new_chain : Options → Chain
new_chain o = record {
  strategy = Strategy.init (length o.symbols) o.thresh_log2 o.cooldown_updates o.order_shares;
  risk = Risk.init (length o.symbols) o.max_position o.min_order_spacing o.collar_shift;
  ouch = Ouch.init o.symbols;
  has_file = is_path o.orders_out;
  orders = [];
}

-- `if orders_out is not None: ...`
abbrev pub chain_for : Option Text → Chain → Option Chain
chain_for none c = none
chain_for (some path) c = some c

abbrev pub chain_of : Options → Option Chain
chain_of o = chain_for o.orders_out (new_chain o)

abbrev pub writer_of : Options → Option MoldWriter
writer_of o = if is_path o.wrap_out then some (Mold.init [] session o.msgs_per_packet 1) else none

abbrev pub start : Options → Dump
start o = record {
  model = Market.init o.symbols 8;
  messages = 0;
  updates = 0;
  chain = chain_of o;
  writer = writer_of o;
  out = [];
}

abbrev pub order_line : ℕ → Intent → Text → Bytes → OrderLine
order_line n intent token raw = record {
  n = n;
  token = token;
  side = intent.side;
  symbol_idx = intent.symbol_idx;
  shares = intent.shares;
  price = intent.price;
  raw = raw;
}

-- An accepted intent is encoded and written.
unfoldable pub send_order : ℕ → Chain → Intent → Result Chain
send_order n c intent =
    let (ouch, encoded) =
      Ouch.encode c.ouch intent.symbol_idx intent.side intent.shares intent.price in
    do
      raw ← encoded
      token ← ascii (take 14 (drop 3 raw))
      ok (record c { ouch = ouch; orders = c.orders ++ order_line n intent token raw ∷ [] })

unfoldable pub on_intent : ℕ → Chain → Option Intent → Result Chain
on_intent n c none = ok c
on_intent n c (some intent) = do
  answer ← Risk.on_intent c.risk intent
  let c' = record c { risk = answer.0 }
  if answer.1 then send_order n c' intent else ok c'

-- The gate counts the update before the strategy sees it.
unfoldable pub on_update : ℕ → Event → Chain → Result Chain
on_update n ev c = do
  let risk = Risk.on_update c.risk
  fired ← Strategy.on_update c.strategy ev
  on_intent n (record c { strategy = fired.0; risk = risk }) fired.1

-- `if orders_file is not None: ...`
unfoldable pub if_file : Bool → ℕ → Event → Chain → Result (Option Chain)
if_file false n ev c = ok (some c)
if_file true n ev c = on_update n ev c >>= λ c'. ok (some c')

unfoldable pub on_chain : ℕ → Event → Option Chain → Result (Option Chain)
on_chain n ev none = ok none
on_chain n ev (some c) = if_file c.has_file n ev c

abbrev pub line_of : ℕ → Event → Line
line_of n ev = record { n = n; symbol_idx = ev.symbol_idx; bid = ev.bid; ask = ev.ask }

unfoldable pub on_event : ℕ → Event → Dump → Result Dump
on_event n ev d = do
  let d' = record d { out = d.out ++ line_of n ev ∷ []; updates = d.updates + 1 }
  chain ← on_chain n ev d'.chain
  ok (record d' { chain = chain })

-- `for ev in events`
unfoldable pub on_events : ℕ → List Event → Dump → Result Dump
on_events n [] d = ok d
on_events n (ev ∷ events) d = on_event n ev d >>= on_events n events

unfoldable pub on_writer : Bytes → Option MoldWriter → Result (Option MoldWriter)
on_writer payload none = ok none
on_writer payload (some w) = Mold.add w payload >>= λ w'. ok (some w')

unfoldable pub on_model : ℕ → Option DecodedMsg → Dump → Result Dump
on_model n none d = ok d
on_model n (some msg) d = do
  reply ← Market.on_message d.model msg
  on_events n reply.1 (record d { model = reply.0 })

-- One turn of the loop, with the ordinal `n`.
unfoldable pub on_payload : ℕ → Bytes → Dump → Result Dump
on_payload n payload d = do
  writer ← on_writer payload d.writer
  msg ← parse_message payload
  on_model n msg (record d { messages = n + 1; writer = writer })

-- `for n, payload in enumerate(...)`
unfoldable pub on_payloads : ℕ → List Bytes → Dump → Result Dump
on_payloads n [] d = ok d
on_payloads n (payload ∷ payloads) d = on_payload n payload d >>= on_payloads (n + 1) payloads

unfoldable pub close_writer : Option MoldWriter → Result (Option MoldWriter)
close_writer none = ok none
close_writer (some w) = Mold.close w >>= λ w'. ok (some w')

pub record Wrapped : Type 0 where
  pub wrapped_messages : ℕ
  pub wrapped_packets : ℕ

pub record Counts : Type 0 where
  pub intents : ℕ
  pub accepts : ℕ
  pub sanity_rejects : ℕ
  pub collar_rejects : ℕ
  pub rate_rejects : ℕ
  pub pos_rejects : ℕ
  pub orders : ℕ

pub record Summary : Type 0 where
  pub messages : ℕ
  pub updates : ℕ
  pub drops : ℕ
  pub wrapped : Option Wrapped
  pub counts : Option Counts

abbrev pub wrapped_of : Option MoldWriter → Option Wrapped
wrapped_of none = none
wrapped_of (some w) = some (record { wrapped_messages = w.messages; wrapped_packets = w.packets })

abbrev pub counts_of : Option Chain → Option Counts
counts_of none = none
counts_of (some c) = some (record {
  intents = c.strategy.intent_count;
  accepts = c.risk.accept_count;
  sanity_rejects = c.risk.sanity_reject_count;
  collar_rejects = c.risk.collar_reject_count;
  rate_rejects = c.risk.rate_reject_count;
  pos_rejects = c.risk.pos_reject_count;
  orders = Ouch.order_count c.ouch;
})

abbrev pub summary_of : Dump → Summary
summary_of d = record {
  messages = d.messages;
  updates = d.updates;
  drops = d.model.drop_count;
  wrapped = wrapped_of d.writer;
  counts = counts_of d.chain;
}

-- The files after the run, as the last `Dump`, and the summary.
unfoldable pub dump_trace : Options → Bytes → Result (Dump × Summary)
dump_trace o capture = do
  d ← on_payloads 0 (read_messages o.limit capture) (start o)
  writer ← close_writer d.writer
  let d' = record d { writer = writer }
  ok (d', summary_of d')
