-- ===== src/Fuzz/Packets.antt =====
-- `pack_packets` and `pack_stream` of model/fuzz_stream.py.
use hft_rtl.Prelude.{ℕ, zero, suc, ◌+◌, List, [], ◌∷◌, ◌++◌, take, drop, length}
use hft_rtl.Prelude.Bytes.{Bytes, pack_be, join}
use hft_rtl.Prelude.Result.{Result, ok, raise, ◌>>=◌, value_error}
use hft_rtl.Mold.{pack_hdr, session_field}

-- The loop over a batch, which appends to the packet.
unfoldable pub extend : Bytes → List Bytes → Result Bytes
extend pkt [] = ok pkt
extend pkt (m ∷ ms) = do len ← pack_be 2 (length m); extend ((pkt ++ len) ++ m) ms

unfoldable pub pack_batch : Bytes → ℕ → List Bytes → Result Bytes
pack_batch session seq batch = do hdr ← pack_hdr session seq (length batch); extend hdr batch

-- The loop over the batches, with the messages that are left; each turn takes at least one of them.
unfoldable pub pack_batches : Bytes → ℕ → ℕ → ℕ → List Bytes → Result (List Bytes × ℕ)
pack_batches session msgs_per_packet zero seq messages = ok ([], seq)
pack_batches session msgs_per_packet (suc fuel) seq [] = ok ([], seq)
pack_batches session msgs_per_packet (suc fuel) seq (m ∷ ms) = do
  let batch = take msgs_per_packet (m ∷ ms)
  pkt ← pack_batch session seq batch
  rest ←
      pack_batches session msgs_per_packet fuel (seq + length batch) (drop msgs_per_packet (m ∷ ms))
  ok (pkt ∷ rest.0, rest.1)

-- A step of 0 is refused by `range`.
unfoldable pub pack_packets : List Bytes → Bytes → ℕ → ℕ → Result (List Bytes × ℕ)
pack_packets messages session zero start_seq = raise value_error
pack_packets messages session (suc n) start_seq =
    pack_batches (session_field session) (suc n) (length messages) start_seq messages

unfoldable pub pack_stream : List Bytes → Bytes → ℕ → ℕ → Result (Bytes × ℕ)
pack_stream messages session msgs_per_packet start_seq = do
  packed ← pack_packets messages session msgs_per_packet start_seq
  ok (join packed.0, packed.1)
