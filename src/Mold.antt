-- ===== src/Mold.antt =====
-- model/moldwrap.py: MoldUDP64 packets, `class MoldWriter` and `wrap`. A call that raises ends the
-- stream, so what it has written before is not kept.
pub mod Flush
pub mod Wrap
pub mod Count
pub mod Reader
pub mod Stream
pub mod Total
use hft_rtl.Prelude.{
  ℕ, zero, suc, ◌+◌, List, [], ◌∷◌, ◌++◌, Bool, true, false, nat_eq, ◌&&◌, if◌then◌else◌, length,
  Option, none, some, take,
}
use hft_rtl.Prelude.Bytes.{Bytes, be, pack_be, pack_s, ljust_with}
use hft_rtl.Prelude.Result.{Result, ok, raise, ◌>>=◌}

-- `_LEN.pack(len(m)) + m` for each message, joined.
unfoldable pub pack_messages : List Bytes → Result Bytes
pack_messages [] = ok []
pack_messages (m ∷ ms) = do
  len ← pack_be 2 (length m)
  rest ← pack_messages ms
  ok (len ++ (m ++ rest))

-- `_HDR.pack(session, sequence, count)`
unfoldable pub pack_hdr : Bytes → ℕ → ℕ → Result Bytes
pack_hdr session sequence count = do
  seq ← pack_be 8 sequence
  cnt ← pack_be 2 count
  ok (pack_s 10 session ++ (seq ++ cnt))

unfoldable pub pack_packet : Bytes → ℕ → List Bytes → Result Bytes
pack_packet session sequence messages = do
  body ← pack_messages messages
  hdr ← pack_hdr session sequence (length messages)
  ok (hdr ++ body)

-- `session[:10].ljust(10, b'\x00')`
unfoldable pub session_field : Bytes → Bytes
session_field session = ljust_with 0 10 (take 10 session)

abbrev pub end_marker : ℕ
end_marker = 65535

unfoldable pub end_of_session_packet : Bytes → ℕ → Result Bytes
end_of_session_packet session sequence = pack_hdr (session_field session) sequence end_marker

-- `f` is what has been written to the file.
pub record MoldWriter : Type 0 where
  pub f : Bytes
  pub session : Bytes
  pub msgs_per_packet : ℕ
  pub seq : ℕ
  pub batch : List Bytes
  pub packets : ℕ
  pub messages : ℕ

abbrev pub init : Bytes → Bytes → ℕ → ℕ → MoldWriter
init f session msgs_per_packet start_seq = record {
  f = f;
  session = session_field session;
  msgs_per_packet = msgs_per_packet;
  seq = start_seq;
  batch = [];
  packets = 0;
  messages = 0;
}

abbrev pub is_empty {ℓ} : {A : Type ℓ} → List A → Bool
is_empty [] = true
is_empty (x ∷ xs) = false

unfoldable pub flush : MoldWriter → Result MoldWriter
flush w =
    if is_empty w.batch
    then ok w
    else (pack_packet w.session w.seq w.batch >>= λ packet. ok (record w {
      f = w.f ++ packet;
      seq = w.seq + length w.batch;
      packets = w.packets + 1;
      batch = [];
    }))

unfoldable pub add : MoldWriter → Bytes → Result MoldWriter
add w msg =
    let w' = record w { batch = w.batch ++ msg ∷ []; messages = w.messages + 1 } in
    if nat_eq (length w'.batch) w.msgs_per_packet then flush w' else ok w'

unfoldable pub close : MoldWriter → Result MoldWriter
close w = do
  w' ← flush w
  packet ← end_of_session_packet w'.session w'.seq
  ok (record w' { f = w'.f ++ packet; packets = w'.packets + 1 })

-- `add` for each message, then `close`.
unfoldable pub write_all : MoldWriter → List Bytes → Result MoldWriter
write_all w [] = close w
write_all w (msg ∷ msgs) = add w msg >>= λ w'. write_all w' msgs

-- The local variables of `wrap`.
pub record WrapState : Type 0 where
  pub seq : ℕ
  pub batch : List Bytes
  pub packet_idx : ℕ

abbrev pub is_gap : Option ℕ → ℕ → Bool
is_gap none packet_idx = false
is_gap (some gap_after) packet_idx = nat_eq packet_idx gap_after

-- `flush()` inside `wrap`: the packet, or `None`.
unfoldable pub wrap_flush : Bytes → Option ℕ → WrapState → Result (Option Bytes × WrapState)
wrap_flush session gap_after st =
    if is_empty st.batch
    then ok (none, st)
    else (pack_packet session st.seq st.batch >>= λ packet.
        let seq = st.seq + length st.batch in
        ok (
          some packet,
          record {
            seq = if is_gap gap_after (st.packet_idx + 1) then seq + 1 else seq;
            batch = [];
            packet_idx = st.packet_idx + 1;
          },
        ))

abbrev pub if_some : Option Bytes → List Bytes → List Bytes
if_some none packets = packets
if_some (some packet) packets = packet ∷ packets

-- The packets that `wrap` yields from a state on.
unfoldable pub wrap_from : Bytes → ℕ → Option ℕ → WrapState → List Bytes → Result (List Bytes)
wrap_from session msgs_per_packet gap_after st [] = do
  flushed ← wrap_flush session gap_after st
  trailer ← pack_hdr session flushed.1.seq end_marker
  ok (if_some flushed.0 (trailer ∷ []))
wrap_from session msgs_per_packet gap_after st (msg ∷ msgs) =
    let batch = st.batch ++ msg ∷ [] in
    let st' = record st { batch = batch } in
    elim (nat_eq (length batch) msgs_per_packet) [
      | true ↦ do
        flushed ← wrap_flush session gap_after st'
        packets ← wrap_from session msgs_per_packet gap_after flushed.1 msgs
        ok (if_some flushed.0 packets)
      | false ↦ wrap_from session msgs_per_packet gap_after st' msgs
    ]

unfoldable pub wrap : List Bytes → Bytes → ℕ → ℕ → Option ℕ → Result (List Bytes)
wrap messages session msgs_per_packet start_seq gap_after =
    wrap_from (session_field session) msgs_per_packet gap_after
      (record { seq = start_seq; batch = []; packet_idx = 0 }) messages
