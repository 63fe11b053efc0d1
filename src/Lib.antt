-- ===== src/Lib.antt =====
-- hft-rtl: the Python golden model of an ITCH order book, strategy, risk gate and order encoder.
--
-- The program (model/) replays a Nasdaq ITCH capture through a chain of parts: the capture's
-- messages are parsed (model/itch.py), applied to an order table and to a top-N book for each symbol
-- (model/book.py); every book update goes to an imbalance strategy (model/strategy.py), whose intents
-- go through a risk gate (model/risk.py) and are encoded as OUCH orders (model/ouch.py). Captures
-- are BinaryFILE (model/binaryfile.py), and are wrapped as MoldUDP64 packets for the hardware
-- (model/moldwrap.py), whose book updates and orders model/compare_traces.py and
-- model/compare_orders.py compare with the model's.
-- model/dump_trace.py runs the chain and writes the traces, model/fuzz_stream.py builds test streams
-- of such messages, and scripts/gen_symbols.py prints the list of symbols that the hardware is built
-- with, whose order is the one of the model.
--
-- Files:
--   Prelude      shared names; Prelude/Result exceptions as values, Prelude/Dict Python dicts as
--                association lists, Prelude/Int signed integers, Prelude/Bytes byte strings and
--                `struct` fields, big-endian, Prelude/Strip `str.strip`
--   Book         `class PriceBook`, method by method. Book/Levels, Book/Add: the loops against a book
--                of unlimited depth; Book/Invariant, Book/Depth: order, bounds and shares at a price;
--                Book/Reduce: `reduce` against a pass over all levels; Book/Prices:
--                bounds of prices
--   Market       `class MarketModel`: a handler for each kind of message. Market/Invariant,
--                Market/Effect, Market/Handlers: no exceptions; Market/Agreement, Market/Feed: books
--                against resting orders, over every reachable state; Market/Bounds, Market/Initial:
--                bounds of events
--   Itch         `DecodedMsg`, the decoders, `LAYOUTS` and `parse_message`; Itch/Total when it returns
--   Strategy     `class Strategy`. Strategy/Edge and Strategy/Fires one update,
--                Strategy/Cooldown runs of updates,
--                Strategy/Total that an update returns
--   Risk         `class RiskGate`. Risk/Checks one intent, Risk/Exposure runs of calls, Risk/Total
--                that an intent is answered
--   Ouch         `class OuchEncoder`. Ouch/Frame the layout of an order, Ouch/Tokens its tokens,
--                Ouch/Total the orders that fit it
--   BinaryFile   `read_messages` of model/binaryfile.py; BinaryFile/Records against files of records,
--                BinaryFile/Payloads bounds of what is read
--   Mold         model/moldwrap.py: `MoldWriter` and `wrap`. Mold/Flush and Mold/Wrap one against the
--                other, Mold/Count the counters of the writer, Mold/Reader and Mold/Stream against a
--                reader of the packets, Mold/Total that the writer returns
--   Trace        `dump_trace` of model/dump_trace.py, the loop over all the parts. Trace/ChainTally
--                and Trace/Tally its counters, Trace/Wrapping the stream that it wraps, Trace/Lift
--                properties of one event over a run, Trace/Numbering the tokens in the order lines,
--                Trace/Exposure the positions against them, Trace/Linked one event, Trace/Total one
--                message and Trace/Ends a run without exceptions, Trace/Shown the depth of the lines,
--                Trace/Command `main`
--   Orders       model/compare_orders.py, over the lines of the two streams. Orders/Steps the branches
--                of its loop, Orders/Match when it reports a match, Orders/First what it says of a
--                divergence, Orders/Command `main`
--   Traces       model/compare_traces.py, from the lines of the two files. Traces/Json the values that
--                `json.loads` makes, Traces/Steps the branches of the loop, Traces/Match when it
--                reports a match, Traces/Updates the same for printed updates, Traces/First and
--                Traces/Reports what it says of divergences, Traces/Finite that it ends, Traces/Replay the
--                comparison of a run of `dump_trace` with the RTL
--   Fuzz         model/fuzz_stream.py. Fuzz/Messages the ITCH message builders; Fuzz/Fields,
--                Fuzz/RoundTrip against the parser; Fuzz/Packets the packing, Fuzz/PacketsWrap against
--                `wrap`. Fuzz/Draws the random numbers, Fuzz/Generate `generate_messages`, Fuzz/Corrupt
--                `_corrupt_message`, Fuzz/Build `build_fuzz_stream`; Fuzz/Sizes, Fuzz/Built,
--                Fuzz/Generated what is generated, Fuzz/Corrupted what is damaged, Fuzz/Kept and
--                Fuzz/Layout what a reader of the stream finds, Fuzz/Command `main`
--   Symbols      scripts/gen_symbols.py. Symbols/Decimal its numbers, Symbols/Reader a reader of the
--                array that it prints, Symbols/Header the array against the model's indices
--   Tests        runs on concrete inputs, and the theorems at concrete inputs
--
-- How the code is read: an object is a record, and a method returns the new record beside its result
-- or an exception (`Prelude.Result`). Python's integers are unbounded; prices, shares and counters
-- are natural numbers, as they are in the feed's unsigned fields, and positions are signed. A `str` or
-- `bytes` is the list of its code points. Lists that the code mutates in place are written back under
-- the object that holds them. Loops are structural recursion. Six of them have fuel: `read_from` the
-- length of the file, of which each turn reads two bytes or more, `pack_batches` the number of
-- messages, of which each turn takes one or more, `hex_high` the number itself and `digits_from` one
-- more than it, of which each turn takes a digit, `generate_from` the number of messages, of which
-- each turn appends one or more, and `draw_other`, which draws until a byte is another one, a number
-- of draws among which there is one. `json.loads` is a parameter of Orders and Traces, `int()` of a
-- `str` one of Traces, and `random.Random` one of Fuzz; the theorems hold for any, where they do not
-- say what of it they need. A `main` starts from the parsed arguments, or from `argv` in
-- scripts/gen_symbols.py, and ends in the exit code and what is written and printed.
--
-- Not modelled: `argparse`, and negative numbers among the arguments; opening files, the wording of
-- most messages; in Orders, an exception of `json.loads` that is no `ValueError`; the SystemVerilog sources and the test benches.
pub mod Prelude
pub mod Book
pub mod Itch
pub mod Market
pub mod Ouch
pub mod Strategy
pub mod Risk
pub mod BinaryFile
pub mod Mold
pub mod Trace
pub mod Symbols
pub mod Traces
pub mod Orders
pub mod Fuzz
mod Tests
