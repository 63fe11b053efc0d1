-- ===== src/Fuzz/Command.antt =====
-- `main` of model/fuzz_stream.py, from the parsed arguments to the stream, the sidecar and the line on
-- standard error.
use hft_rtl.Prelude.{
  ℕ, ◌+◌, ◌^◌, ◌<◌, ◌≡◌, refl, Bool, false, Option, none, some, List, [], ◌∷◌, if◌then◌else◌, Text,
  length, drop, All,
}
use hft_rtl.Prelude.Bytes.{Bytes}
use hft_rtl.Prelude.Result.{Result, ok, ◌>>=◌, Returns, Returns-eq}
use hft_rtl.Symbols.{symbols_of, join_with}
use hft_rtl.Trace.Command.{field_text}
use hft_rtl.Fuzz.Draws.{Rng, InRange}
use hft_rtl.Fuzz.Built.{IsBuilt, IsAscii}
use hft_rtl.Fuzz.Corrupted.{Yields, Yields-eq, Varies}
use hft_rtl.Fuzz.Layout.{IsTail, IsFuzz, build_fuzz_stream-IsFuzz}
use hft_rtl.Fuzz.Build.{FuzzStream, build_fuzz_stream, default_symbols}

-- The namespace that `parse_args` returns; `meta` says whether there is a path for the sidecar.
pub record Args : Type 0 where
  pub seed : ℕ
  pub meta : Bool
  pub symbols : Text
  pub n_dirty : ℕ
  pub n_tail : ℕ
  pub msgs_per_packet : ℕ

-- With the required arguments only.
abbrev pub default_args : ℕ → Args
default_args seed = record {
  seed = seed;
  meta = false;
  symbols = join_with (b',' ∷ []) default_symbols;
  n_dirty = 300;
  n_tail = 1000;
  msgs_per_packet = 16;
}

pub record Meta : Type 0 where
  pub seed : ℕ
  pub tail_start : ℕ
  pub total_bytes : ℕ
  pub bytes_corrupted : ℕ
  pub bogus_lengths : List ℕ
  pub n_dirty_messages : ℕ
  pub n_tail_messages : ℕ

abbrev pub meta_of : ℕ → FuzzStream → Meta
meta_of seed result = record {
  seed = seed;
  tail_start = result.tail_start;
  total_bytes = length result.stream;
  bytes_corrupted = result.bytes_corrupted;
  bogus_lengths = result.bogus_lengths;
  n_dirty_messages = length result.dirty_messages;
  n_tail_messages = length result.tail_messages;
}

-- The line on standard error.
abbrev pub report : Meta → Text
report meta = field_text (b's' ∷ b'e' ∷ b'e' ∷ b'd' ∷ b'=' ∷ []) meta.seed (
    field_text (b' ' ∷ b'b' ∷ b'y' ∷ b't' ∷ b'e' ∷ b's' ∷ b'=' ∷ []) meta.total_bytes (
      field_text
        (b' ' ∷ b't' ∷ b'a' ∷ b'i' ∷ b'l' ∷ b'_' ∷ b's' ∷ b't' ∷ b'a' ∷ b'r' ∷ b't' ∷ b'=' ∷ [])
        meta.tail_start
        (field_text
          (b' ' ∷ b'b' ∷ b'y' ∷ b't' ∷ b'e' ∷ b's' ∷ b'_' ∷ b'c' ∷ b'o' ∷ b'r' ∷ b'r' ∷ b'u' ∷ b'p'
            ∷ b't' ∷ b'e' ∷ b'd' ∷ b'=' ∷ [])
          meta.bytes_corrupted
          (field_text
            (b' ' ∷ b'b' ∷ b'o' ∷ b'g' ∷ b'u' ∷ b's' ∷ b'_' ∷ b'l' ∷ b'e' ∷ b'n' ∷ b'g' ∷ b't'
              ∷ b'h' ∷ b's' ∷ b'=' ∷ [])
            (length meta.bogus_lengths) []))))

-- The exit code, what is written and what is printed.
pub record Exit : Type 0 where
  pub code : ℕ
  pub stream : Bytes
  pub sidecar : Option Meta
  pub err : Text

abbrev pub exit_of : Args → FuzzStream → Exit
exit_of args result =
    let meta = meta_of args.seed result in
    record {
      code = 0;
      stream = result.stream;
      sidecar = if args.meta then some meta else none;
      err = report meta;
    }

abbrev pub if_built : Args → Option FuzzStream → Result (Option Exit)
if_built args none = ok none
if_built args (some result) = ok (some (exit_of args result))

module _ {G : Type 0} (rng : Rng G) where
  unfoldable pub main : (ℕ → G) → ℕ → Args → Result (Option Exit)
  main seeded fuel args = do
    result ←
        build_fuzz_stream rng seeded fuel args.seed (symbols_of args.symbols) args.n_dirty
          args.n_tail args.msgs_per_packet
    if_built args result

-- What the files and the sidecar say; `meta` is what is in the sidecar, when there is one.
pub record IsDone (args : Args) (exit : Exit) (meta : Meta) : Type 0 where
  pub code : exit.code ≡ 0
  pub sidecar : exit.sidecar ≡ (if args.meta then some meta else none)
  pub total : meta.total_bytes ≡ length exit.stream
  pub dirty : meta.n_dirty_messages ≡ args.n_dirty
  pub tail : meta.n_tail_messages ≡ args.n_tail
  pub messages :
      (ms : List Bytes) × (length ms ≡ args.n_tail)
      × All IsBuilt ms
      × IsTail ms (drop meta.tail_start exit.stream)

abbrev pub Describes : Args → Exit → Type 0
Describes args exit = (meta : Meta) × IsDone args exit meta

module _ {G : Type 0} (rng : Rng G) (law : InRange rng) where
  exit_of-Describes :
      (args : Args) (f : FuzzStream)
      → IsFuzz rng law args.n_dirty args.n_tail args.msgs_per_packet f
      → Describes args (exit_of args f)
  exit_of-Describes args f h = (
    meta_of args.seed f,
    record {
      code = refl;
      sidecar = refl;
      total = refl;
      dirty = h.dirty_count;
      tail = h.tail_count;
      messages = (f.tail_messages, h.tail_count, h.tail_built, h.tail_read);
    },
  )

  -- If the random numbers are in their ranges, one of any `fuel` random bytes in a row differs from a
  -- given byte, the symbols that the argument names are ASCII, a packet takes between 1 and 65534
  -- messages, and the numbers of messages fit the order ids, then `main` of fuzz_stream ends with
  -- exit code 0 and without an exception, and the sidecar, which is written when it is asked for,
  -- counts the bytes of the stream and the messages of both parts as they were asked for, and a
  -- reader of the stream from its `tail_start` on finds exactly that many messages, all made by a
  -- builder, numbered from 1, and the end of the session.
  pub main-Describes :
      (seeded : ℕ → G) (fuel : ℕ) (args : Args)
      → Varies rng fuel
      → All IsAscii (symbols_of args.symbols)
      → 0 < args.msgs_per_packet
      → args.msgs_per_packet < 65535
      → args.n_dirty + 1 < 256 ^ 8
      → args.n_tail + 1 < 256 ^ 8
      → Returns (Yields (Describes args)) (main rng seeded fuel args)
  unfolding main
  main-Describes seeded fuel args varies spelled some_ fits few_dirty few_tail =
      let P = Yields (IsFuzz rng law args.n_dirty args.n_tail args.msgs_per_packet) in
      let stream =
        build_fuzz_stream rng seeded fuel args.seed (symbols_of args.symbols) args.n_dirty
          args.n_tail args.msgs_per_packet in
      let (result, e, good) = Returns-eq P stream (
        build_fuzz_stream-IsFuzz rng law fuel varies (symbols_of args.symbols) spelled args.n_dirty
          args.n_tail args.msgs_per_packet some_ fits few_dirty few_tail seeded args.seed) in
      let (f, is, fuzz) = Yields-eq _ result good in rw (e, is) (exit_of-Describes args f fuzz)
