-- ===== src/Fuzz/Build.antt =====
-- `build_fuzz_stream` of model/fuzz_stream.py, over a generator of random numbers that the seed gives.
-- `none` stands for a `_corrupt_message` that has not ended within the fuel.
use hft_rtl.Prelude.{
  ℕ, ◌+◌, ◌/◌, Option, none, some, List, [], ◌∷◌, ◌++◌, ltb, if◌then◌else◌, Text, length, take,
}
use Prim.Native.Nat.{max}
use hft_rtl.Prelude.Bytes.{Bytes, join}
use hft_rtl.Prelude.Result.{Result, ok, ◌>>=◌}
use hft_rtl.Mold.{init, write_all}
use hft_rtl.Fuzz.Packets.{pack_packets}
use hft_rtl.Fuzz.Draws.{Rng, below_10, below_15}
use hft_rtl.Fuzz.Generate.{generate_messages}
use hft_rtl.Fuzz.Corrupt.{Corrupted, corrupt_message}

abbrev pub max_bogus_len : ℕ
max_bogus_len = 50

abbrev pub dirty_session : Bytes
dirty_session = b'F' ∷ b'U' ∷ b'Z' ∷ b'Z' ∷ b'D' ∷ b'I' ∷ b'R' ∷ b'T' ∷ b'0' ∷ b'1' ∷ []

abbrev pub tail_session : Bytes
tail_session = b'F' ∷ b'U' ∷ b'Z' ∷ b'Z' ∷ b'T' ∷ b'A' ∷ b'I' ∷ b'L' ∷ b'0' ∷ b'1' ∷ []

abbrev pub default_symbols : List Text
default_symbols =
    (b'A' ∷ b'A' ∷ b'P' ∷ b'L' ∷ [])
    ∷ (b'M' ∷ b'S' ∷ b'F' ∷ b'T' ∷ [])
    ∷ (b'S' ∷ b'P' ∷ b'Y' ∷ [])
    ∷ (b'Q' ∷ b'Q' ∷ b'Q' ∷ [])
    ∷ (b'T' ∷ b'S' ∷ b'L' ∷ b'A' ∷ [])
    ∷ (b'N' ∷ b'V' ∷ b'D' ∷ b'A' ∷ [])
    ∷ (b'A' ∷ b'M' ∷ b'D' ∷ [])
    ∷ (b'I' ∷ b'N' ∷ b'T' ∷ b'C' ∷ [])
    ∷ []

-- `symbols or DEFAULT_SYMBOLS`
abbrev pub or_default : List Text → List Text
or_default [] = default_symbols
or_default (s ∷ ss) = s ∷ ss

pub record FuzzStream : Type 0 where
  pub stream : Bytes
  pub tail_start : ℕ
  pub dirty_messages : List Bytes
  pub corrupted_messages : List Bytes
  pub tail_messages : List Bytes
  pub bytes_corrupted : ℕ
  pub bogus_lengths : List ℕ
  pub n_packets_total : ℕ
  pub n_packets_kept : ℕ
  pub clean_dirty_bytes : ℕ
  pub corrupted_dirty_bytes : ℕ
  pub truncated_dirty_bytes : ℕ

-- What the loop over the messages collects.
pub record Damage (G : Type 0) : Type 0 where
  pub corrupted_messages : List Bytes
  pub n_changed : ℕ
  pub bogus_lengths : List ℕ
  pub rng_state : G

abbrev pub with_length : Option ℕ → List ℕ → List ℕ
with_length none lengths = lengths
with_length (some len) lengths = len ∷ lengths

module _ {G : Type 0} (rng : Rng G) where
  abbrev pub with_corrupted : Corrupted G → Option (Damage G) → Option (Damage G)
  with_corrupted c none = none
  with_corrupted c (some d) = some (record {
    corrupted_messages = c.bytes ∷ d.corrupted_messages;
    n_changed = c.changed + d.n_changed;
    bogus_lengths = with_length c.bogus_len d.bogus_lengths;
    rng_state = d.rng_state;
  })

  -- `for m in dirty_messages`
  unfoldable pub corrupt_all : ℕ → List Bytes → G → Option (Damage G)
  corrupt_all fuel [] g =
      some (record { corrupted_messages = []; n_changed = 0; bogus_lengths = []; rng_state = g })
  corrupt_all fuel (m ∷ ms) g =
      elim (corrupt_message rng fuel m below_15 below_10 max_bogus_len g) [
        | none ↦ none
        | some c ↦ with_corrupted c (corrupt_all fuel ms c.rng_state)
      ]

  -- The number of packets that are kept.
  unfoldable pub keep_packets : ℕ → G → ℕ × G
  keep_packets n_packets g =
      if ltb 1 n_packets then rng.randrange (max 1 (n_packets / 2)) n_packets g else (n_packets, g)

  -- The dictionary that is returned.
  abbrev pub fuzz_stream :
      List Bytes → Damage G → List Bytes → List Bytes → ℕ → List Bytes → Bytes → FuzzStream
  fuzz_stream dirty_messages d clean_packets all_packets keep tail_messages tail_bytes =
      let dirty_buf = join (take keep all_packets) in
      record {
        stream = dirty_buf ++ tail_bytes;
        tail_start = length dirty_buf;
        dirty_messages = dirty_messages;
        corrupted_messages = d.corrupted_messages;
        tail_messages = tail_messages;
        bytes_corrupted = d.n_changed;
        bogus_lengths = d.bogus_lengths;
        n_packets_total = length all_packets;
        n_packets_kept = keep;
        clean_dirty_bytes = length (join clean_packets);
        corrupted_dirty_bytes = length (join all_packets);
        truncated_dirty_bytes = length dirty_buf;
      }

  -- What follows the loop.
  unfoldable pub finish : List Text → ℕ → ℕ → List Bytes → Damage G → Result (Option FuzzStream)
  finish symbols n_tail_messages msgs_per_packet dirty_messages d = do
    all_packets ← pack_packets d.corrupted_messages dirty_session msgs_per_packet 1
    clean_packets ← pack_packets dirty_messages dirty_session msgs_per_packet 1
    let n_packets = length all_packets.0
    let keep = keep_packets n_packets d.rng_state
    tail ← generate_messages rng n_tail_messages symbols keep.1
    writer ← write_all (init [] tail_session msgs_per_packet 1) tail.0
    ok (some (fuzz_stream dirty_messages d clean_packets.0 all_packets.0 keep.0 tail.0 writer.f))

  abbrev pub if_ended :
      Option (Damage G) → (Damage G → Result (Option FuzzStream)) → Result (Option FuzzStream)
  if_ended none next = ok none
  if_ended (some d) next = next d

  -- `seeded` is `random.Random`.
  unfoldable pub build_fuzz_stream :
      (ℕ → G) → ℕ → ℕ → List Text → ℕ → ℕ → ℕ → Result (Option FuzzStream)
  build_fuzz_stream seeded fuel seed symbols n_dirty_target n_tail_messages msgs_per_packet = do
    dirty ← generate_messages rng n_dirty_target (or_default symbols) (seeded seed)
    if_ended (corrupt_all fuel dirty.0 dirty.1)
        (finish (or_default symbols) n_tail_messages msgs_per_packet dirty.0)
