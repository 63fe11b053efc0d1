-- ===== src/Trace/Command.antt =====
-- `main` of model/dump_trace.py, from the parsed arguments and the bytes of the capture. What it
-- prints on standard error is the last line here.
use hft_rtl.Prelude.{
  ℕ, ◌*◌, ◌^◌, ◌≤◌, ◌<◌, ◌≡◌, refl, Option, none, some, [], ◌∷◌, ◌++◌, Text, length, All,
}
use hft_rtl.Prelude.Bytes.{Bytes, IsByte}
use hft_rtl.Prelude.Result.{Result, ok, ◌>>=◌, Returns, Returns-bind}
use hft_rtl.Symbols.{symbols_of, str}
use hft_rtl.BinaryFile.{read_messages}
use hft_rtl.Itch.Total.{IsReadable}
use hft_rtl.Ouch.Total.{IsName}
use hft_rtl.Trace.Linked.{ShowsAll}
use hft_rtl.Trace.Ends.{dump_trace-Returns}
use hft_rtl.Trace.{Options, Dump, Summary, Wrapped, Counts, dump_trace}

-- The namespace that `parse_args` returns, without the paths of the capture and of the book trace. No
-- number in it is negative.
pub record Args : Type 0 where
  pub symbols : Text
  pub limit : Option ℕ
  pub wrap_out : Option Text
  pub msgs_per_packet : ℕ
  pub orders_out : Option Text
  pub thresh_log2 : ℕ
  pub cooldown : ℕ
  pub order_shares : ℕ
  pub max_position : ℕ
  pub min_spacing : ℕ
  pub collar_shift : ℕ

-- With the required arguments only.
abbrev pub default_args : Text → Args
default_args symbols = record {
  symbols = symbols;
  limit = none;
  wrap_out = none;
  msgs_per_packet = 16;
  orders_out = none;
  thresh_log2 = 2;
  cooldown = 16;
  order_shares = 100;
  max_position = 1000;
  min_spacing = 10;
  collar_shift = 3;
}

-- The arguments of the call of `dump_trace`.
abbrev pub options_of : Args → Options
options_of args = record {
  symbols = symbols_of args.symbols;
  limit = args.limit;
  wrap_out = args.wrap_out;
  msgs_per_packet = args.msgs_per_packet;
  orders_out = args.orders_out;
  thresh_log2 = args.thresh_log2;
  cooldown_updates = args.cooldown;
  order_shares = args.order_shares;
  max_position = args.max_position;
  min_order_spacing = args.min_spacing;
  collar_shift = args.collar_shift;
}

-- A name or a separator, and a number.
abbrev pub field_text : Text → ℕ → Text → Text
field_text name n rest = name ++ (str n ++ rest)

abbrev pub counts_text : Option Counts → Text
counts_text none = []
counts_text (some c) =
    field_text (b' ' ∷ b'i' ∷ b'n' ∷ b't' ∷ b'e' ∷ b'n' ∷ b't' ∷ b's' ∷ b'=' ∷ []) c.intents (
      field_text (b' ' ∷ b'a' ∷ b'c' ∷ b'c' ∷ b'e' ∷ b'p' ∷ b't' ∷ b's' ∷ b'=' ∷ []) c.accepts (
        field_text
          (b' ' ∷ b'r' ∷ b'e' ∷ b'j' ∷ b'e' ∷ b'c' ∷ b't' ∷ b's' ∷ b'=' ∷ b's' ∷ b'a' ∷ b'n' ∷ b'i'
            ∷ b't' ∷ b'y' ∷ b':' ∷ [])
          c.sanity_rejects
          (field_text (b'/' ∷ b'c' ∷ b'o' ∷ b'l' ∷ b'l' ∷ b'a' ∷ b'r' ∷ b':' ∷ []) c.collar_rejects
            (field_text (b'/' ∷ b'r' ∷ b'a' ∷ b't' ∷ b'e' ∷ b':' ∷ []) c.rate_rejects (
              field_text (b'/' ∷ b'p' ∷ b'o' ∷ b's' ∷ b':' ∷ []) c.pos_rejects (
                field_text (b' ' ∷ b'o' ∷ b'r' ∷ b'd' ∷ b'e' ∷ b'r' ∷ b's' ∷ b'=' ∷ []) c.orders
                  []))))))

abbrev pub wrapped_text : Option Wrapped → Text → Text
wrapped_text none rest = rest
wrapped_text (some w) rest =
    field_text
      (b' ' ∷ b'w' ∷ b'r' ∷ b'a' ∷ b'p' ∷ b'p' ∷ b'e' ∷ b'd' ∷ b'_' ∷ b'm' ∷ b'e' ∷ b's' ∷ b's'
        ∷ b'a' ∷ b'g' ∷ b'e' ∷ b's' ∷ b'=' ∷ [])
      w.wrapped_messages
      (field_text
        (b' ' ∷ b'w' ∷ b'r' ∷ b'a' ∷ b'p' ∷ b'p' ∷ b'e' ∷ b'd' ∷ b'_' ∷ b'p' ∷ b'a' ∷ b'c' ∷ b'k'
          ∷ b'e' ∷ b't' ∷ b's' ∷ b'=' ∷ [])
        w.wrapped_packets rest)

-- The line on standard error.
abbrev pub report : Summary → Text
report s =
    field_text (b'm' ∷ b'e' ∷ b's' ∷ b's' ∷ b'a' ∷ b'g' ∷ b'e' ∷ b's' ∷ b'=' ∷ []) s.messages (
      field_text (b' ' ∷ b'u' ∷ b'p' ∷ b'd' ∷ b'a' ∷ b't' ∷ b'e' ∷ b's' ∷ b'=' ∷ []) s.updates (
        field_text (b' ' ∷ b'd' ∷ b'r' ∷ b'o' ∷ b'p' ∷ b's' ∷ b'=' ∷ []) s.drops
          (wrapped_text s.wrapped (counts_text s.counts))))

-- What is left of a run: the exit code, the files and the line.
pub record Exit : Type 0 where
  pub code : ℕ
  pub files : Dump
  pub err : Text

unfoldable pub main : Args → Bytes → Result Exit
main args capture = do
  (d, s) ← dump_trace (options_of args) capture
  ok (record { code = 0; files = d; err = report s })

-- It ends with exit code 0, and the book trace shows eight levels on both sides in every line.
abbrev pub IsDone : Exit → Type 0
IsDone exit = (exit.code ≡ 0) × All ShowsAll exit.files.out

-- On a capture of bytes, `main` of dump_trace ends with exit code 0 and without an exception, and
-- every line of the book trace shows eight levels on both sides, when the symbols that the argument
-- names are ASCII of at most eight characters, an order is below 2 ** 32 shares, a packet takes at
-- least one and less than 65536 messages, the adds that are read have an ASCII side and symbol, and
-- at most 2 ** 31 messages are read.
pub main-Done :
    (args : Args) (capture : Bytes)
    → All IsByte capture
    → All IsName (symbols_of args.symbols)
    → args.order_shares < 256 ^ 4
    → 0 < args.msgs_per_packet
    → args.msgs_per_packet < 256 ^ 2
    → All IsReadable (read_messages args.limit capture)
    → 2 * length (read_messages args.limit capture) ≤ 256 ^ 4
    → Returns IsDone (main args capture)
unfolding main
main-Done args capture bytes names shares some_ most readable short =
    Returns-bind (λ (run : Dump × Summary). All ShowsAll run.0.out) IsDone
      (dump_trace (options_of args) capture) _
      (dump_trace-Returns (options_of args) capture bytes names shares some_ most readable short)
      (λ run shown. (refl, shown))
