-- ===== src/Tests/Trace.antt =====
-- model/dump_trace.py on a capture of two orders that lead to a trade.
use hft_rtl.Prelude.{
  get_elem?, ◌≤◌, ◌↔◌, ◌-◌, zero, suc, ltb, if◌then◌else◌, All, Option, none, arith, map, ℕ, ◌≡◌,
  refl, some, none, List, [], ◌∷◌, ◌++◌, Text, text_eq,
}
use hft_rtl.Prelude.Bytes.{
  Bytes, IsByte, be, of_be, pack_be, pack_s, ljust_with, join, is_ascii, ascii,
}
use hft_rtl.Prelude.Dict.{lookup, insert, erase}
use hft_rtl.Prelude.Strip.{lstrip, rstrip, strip}
use hft_rtl.Traces
use hft_rtl.Traces.{read_lines, exit_with, matching}
use hft_rtl.Traces.Json.{Value, integer, object}
use hft_rtl.Traces.Updates.{line_fields, AllShow}
use hft_rtl.Traces.Replay.{AllPrint, main-dump_trace}
use hft_rtl.Prelude.Int.{ℤ, pos, abs, ◌+ℤ◌}
use hft_rtl.Prelude.Result.{Result, ok, raise, Returns, value_error}
use hft_rtl.Book
use hft_rtl.Market
use hft_rtl.Itch
use hft_rtl.Strategy
use hft_rtl.Risk
use hft_rtl.Ouch
use hft_rtl.Mold
use hft_rtl.Mold.{MoldWriter, wrap}
use hft_rtl.BinaryFile.{read_from, read_messages}
use hft_rtl.Trace.{
  Line, Chain, new_chain, Options, Dump, Summary, session, start, summary_of, dump_trace,
  send_order, on_intent, on_update, if_file, on_chain, on_event, on_events, on_writer, on_model,
  on_payload, on_payloads, close_writer,
}
use hft_rtl.Trace.Tally.{IsReported, dump_trace-IsReported}
use hft_rtl.Trace.Numbering.{token_in, tokens_upto, dump_trace-numbers}
use hft_rtl.Trace.Exposure.{net, dump_trace-nets}
use hft_rtl.Trace.Wrapping.{dump_trace-wraps}
use hft_rtl.Symbols.{split, stripped, digits_from}
use hft_rtl.Trace.Command.{Args, default_args, main, IsDone, main-Done}

program : Unit {0}
unfolding net text_eq Book.is_bid Book.insert_index ◌+ℤ◌ be of_be pack_be pack_s ljust_with is_ascii
    ascii lookup insert erase Book.add_to_level Book.last_level Book.insert_at Book.pop_last
    Book.insert_level Book.add_new Book.add Book.reduce_level Book.reduce Book.padded Book.snapshot
    Market.books_for Market.indices_for Market.snapshot_event Market.append_if Market.add_to_book
    Market.reduce_in_book Market.on_add Market.shrink_order Market.on_exec Market.on_delete
    Market.on_replace Market.on_message Itch.sized Itch.decode_add Itch.decode_shares
    Itch.decode_delete Itch.decode_replace Itch.decode_system Itch.parse_message Strategy.mass
    Strategy.classify Strategy.price_intent Strategy.make_intent Strategy.on_update Risk.on_update
    Risk.check_position Risk.on_intent Ouch.hex_low Ouch.hex_high Ouch.format_08x Ouch.token_of
    Ouch.trailer Ouch.enter_order Ouch.checked Ouch.encode_with Ouch.encode Mold.pack_messages
    Mold.pack_hdr Mold.pack_packet Mold.session_field Mold.end_of_session_packet Mold.flush Mold.add
    Mold.close read_from read_messages send_order on_intent on_update if_file on_chain on_event
    on_events on_writer on_model on_payload on_payloads close_writer dump_trace
program = tt

abbrev spy : Text
spy = b'S' ∷ b'P' ∷ b'Y' ∷ []

-- The record of an order for SPY.
abbrev order : ℕ → ℕ → ℕ → ℕ → Bytes
order id side shares price =
    0 ∷ 36 ∷ b'A' ∷ 0 ∷ 0 ∷ 0 ∷ 0 ∷ 0 ∷ 0 ∷ 0 ∷ 0 ∷ 0 ∷ 0 ∷ 0 ∷ 0 ∷ 0 ∷ 0 ∷ 0 ∷ 0 ∷ 0 ∷ id ∷ side
    ∷ 0 ∷ 0 ∷ 0 ∷ shares ∷ b'S' ∷ b'P' ∷ b'Y' ∷ b' ' ∷ b' ' ∷ b' ' ∷ b' ' ∷ b' ' ∷ 0 ∷ 0 ∷ 0 ∷ price
    ∷ []

abbrev capture : Bytes
capture = order 1 b'S' 1 101 ++ order 2 b'B' 100 99

abbrev options : Options
options = record {
  symbols = spy ∷ [];
  limit = none;
  wrap_out = some (b'w' ∷ []);
  msgs_per_packet = 16;
  orders_out = some (b'o' ∷ []);
  thresh_log2 = 2;
  cooldown_updates = 16;
  order_shares = 10;
  max_position = 100;
  min_order_spacing = 1;
  collar_shift = 3;
}

abbrev value_of : Result (Dump × Summary) → Dump × Summary
value_of (ok run) = run
value_of (raise e) = (start options, summary_of (start options))

abbrev dump : Dump
dump = (value_of (dump_trace options capture)).0

abbrev summary : Summary
summary = (value_of (dump_trace options capture)).1

runs : dump_trace options capture ≡ ok (dump, summary)
unfolding program
runs = refl

counts-summary :
    summary.counts
    ≡ some (record {
      intents = 1;
      accepts = 1;
      sanity_rejects = 0;
      collar_rejects = 0;
      rate_rejects = 0;
      pos_rejects = 0;
      orders = 1;
    })
unfolding program
counts-summary = refl

messages-summary : (summary.messages ≡ 2) × (summary.updates ≡ 2) × (summary.drops ≡ 0)
unfolding program
messages-summary = (refl, refl, refl)

dump_trace-IsReported_example : IsReported (read_messages none capture) dump summary
dump_trace-IsReported_example = dump_trace-IsReported options capture dump summary runs

dump_trace-wraps_example :
    (w : MoldWriter) × (packets : List Bytes) × (dump.writer ≡ some w)
    × (wrap (read_messages none capture) session 16 1 none ≡ ok packets)
    × (w.f ≡ join packets)
dump_trace-wraps_example = dump_trace-wraps options capture dump summary runs refl

abbrev chain_in : Option Chain → Chain
chain_in (some c) = c
chain_in none = new_chain options

abbrev sent : Chain
sent = chain_in dump.chain

sent-dump : dump.chain ≡ some sent
unfolding program
sent-dump = refl

dump_trace-numbers_example : map token_in sent.orders ≡ tokens_upto (Ouch.order_count sent.ouch)
unfolding program
dump_trace-numbers_example =
    dump_trace-numbers options capture dump summary sent runs sent-dump (omega arith)

dump_trace-nets_example :
    (get_elem? sent.risk.positions 0 ≡ some (net 0 (pos 0) sent.orders))
    × (abs (net 0 (pos 0) sent.orders) ≤ 100)
dump_trace-nets_example =
    dump_trace-nets options capture dump summary sent 0 runs sent-dump (omega arith)

net-sent : net 0 (pos 0) sent.orders ≡ pos 10
unfolding program
net-sent = refl

capture-bytes : All IsByte capture
unfolding program
capture-bytes = omega arith

abbrev args : Args
args = record (default_args (b'S' ∷ b'P' ∷ b'Y' ∷ b',' ∷ b' ' ∷ [])) {
  orders_out = some (b'o' ∷ []);
  wrap_out = some (b'w' ∷ []);
}

abbrev exit : Args → Text
exit arguments = elim (main arguments capture) [ ok e ↦ e.err | raise e ↦ [] ]

err-default :
    exit (default_args spy)
    ≡ b'm' ∷ b'e' ∷ b's' ∷ b's' ∷ b'a' ∷ b'g' ∷ b'e' ∷ b's' ∷ b'=' ∷ b'2' ∷ b' ' ∷ b'u' ∷ b'p'
      ∷ b'd' ∷ b'a' ∷ b't' ∷ b'e' ∷ b's' ∷ b'=' ∷ b'2' ∷ b' ' ∷ b'd' ∷ b'r' ∷ b'o' ∷ b'p' ∷ b's'
      ∷ b'=' ∷ b'0' ∷ []
unfolding program digits_from split stripped lstrip rstrip strip main
err-default = refl

-- An empty path for the orders makes a chain, which sees no update.
err-empty_path :
    exit (record (default_args spy) { orders_out = some [] })
    ≡ exit (default_args spy)
      ++ (b' ' ∷ b'i' ∷ b'n' ∷ b't' ∷ b'e' ∷ b'n' ∷ b't' ∷ b's' ∷ b'=' ∷ b'0' ∷ b' ' ∷ b'a' ∷ b'c'
          ∷ b'c' ∷ b'e' ∷ b'p' ∷ b't' ∷ b's' ∷ b'=' ∷ b'0' ∷ b' ' ∷ b'r' ∷ b'e' ∷ b'j' ∷ b'e' ∷ b'c'
          ∷ b't' ∷ b's' ∷ b'=' ∷ b's' ∷ b'a' ∷ b'n' ∷ b'i' ∷ b't' ∷ b'y' ∷ b':' ∷ b'0' ∷ b'/' ∷ b'c'
          ∷ b'o' ∷ b'l' ∷ b'l' ∷ b'a' ∷ b'r' ∷ b':' ∷ b'0' ∷ b'/' ∷ b'r' ∷ b'a' ∷ b't' ∷ b'e' ∷ b':'
          ∷ b'0' ∷ b'/' ∷ b'p' ∷ b'o' ∷ b's' ∷ b':' ∷ b'0' ∷ b' ' ∷ b'o' ∷ b'r' ∷ b'd' ∷ b'e' ∷ b'r'
          ∷ b's' ∷ b'=' ∷ b'0' ∷ [])
unfolding program digits_from split stripped lstrip rstrip strip main
err-empty_path = refl

main-Done_example : Returns IsDone (main args capture)
unfolding program split stripped lstrip rstrip strip
main-Done_example =
    main-Done args capture capture-bytes ((omega arith, refl), tt) (omega arith) (omega arith)
      (omega arith) (refl, (refl, tt)) (omega arith)

abbrev line_at : List Line → ℕ → Line
line_at [] n = record { n = 0; symbol_idx = 0; bid = []; ask = [] }
line_at (l ∷ ls) zero = l
line_at (l ∷ ls) (suc n) = line_at ls n

-- The lines of the run by one code point each, and those that the RTL prints by another.
abbrev loads : Text → Result Value
loads [] = raise value_error
loads (c ∷ cs) =
    if ltb c 70
    then ok (object (line_fields (line_at dump.out (c - 65)) none))
    else ok (object (line_fields (line_at dump.out (c - 75)) (some (integer (pos 12)))))

abbrev no_int : Text → Option ℤ
no_int t = none

abbrev golden_file : List Text
golden_file = (65 ∷ []) ∷ (66 ∷ []) ∷ []

abbrev rtl_file : List Text
rtl_file = (75 ∷ 10 ∷ []) ∷ (10 ∷ []) ∷ (76 ∷ []) ∷ []

golden-AllPrint : AllPrint no_int loads (read_lines golden_file) dump.out
unfolding program read_lines lstrip rstrip strip
golden-AllPrint = (refl, (refl, tt))

rtl-AllShow : AllShow no_int loads (read_lines rtl_file) dump.out
unfolding program read_lines lstrip rstrip strip
rtl-AllShow = (
  (some (integer (pos 12)), refl),
  (refl, refl),
  ((some (integer (pos 12)), refl), (refl, refl), tt),
)

main-dump_trace_example :
    (Traces.main no_int loads 5 2 (some golden_file) (some rtl_file)
      ≡ ok (exit_with 0 (matching 2)))
    ↔ ((dump.out ≡ dump.out) × (summary.updates ≡ 2) × (2 ≤ 2))
main-dump_trace_example =
    main-dump_trace no_int loads options capture dump summary 5 2 2 golden_file rtl_file dump.out
      runs golden-AllPrint rtl-AllShow
