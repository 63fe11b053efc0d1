-- ===== src/Mold/Flush.antt =====
-- Flushing a batch in `MoldWriter` and in `wrap` of model/moldwrap.py.
use hft_rtl.Prelude.{
  ℕ, suc, ◌+◌, ◌-◌, ◌≡◌, refl, List, [], ◌∷◌, ◌++◌, true, false, length, length-append,
  length-replicate, length-take, none, some, take, take_of_length-le, replicate, append-nil,
  append_assoc, arith,
}
use hft_rtl.Prelude.Bytes.{Bytes, ljust_with, join}
use hft_rtl.Prelude.Result.{ok, ◌>>=◌}
use hft_rtl.Mold.{pack_packet, session_field, MoldWriter, is_empty, flush, WrapState, wrap_flush}

pub length-session_field : (session : Bytes) → length (session_field session) ≡ 10
unfolding session_field ljust_with
length-session_field session =
    let cut = take 10 session in
    omega (
      arith,
      length-append cut (replicate (10 - length cut) 0),
      length-replicate {A = ℕ} (10 - length cut) 0,
      length-take 10 session,
    )

-- A field that is full is cut and filled no more.
pub session_field_full : (session : Bytes) → length session ≡ 10 → session_field session ≡ session
unfolding session_field ljust_with
session_field_full session h =
    rw (take_of_length-le 10 session (omega arith), h) (append-nil session)

pub is_empty_iff : (batch : List Bytes) → is_empty batch ≡ true → batch ≡ []
is_empty_iff [] h = refl
is_empty_iff (m ∷ batch) h = cc

pub is_empty-append_one : (batch : List Bytes) (msg : Bytes) → is_empty (batch ++ msg ∷ []) ≡ false
is_empty-append_one [] msg = refl
is_empty-append_one (m ∷ batch) msg = refl

-- The state of `wrap` that the writer is in.
abbrev pub state_of : MoldWriter → ℕ → WrapState
state_of w packet_idx = record { seq = w.seq; batch = w.batch; packet_idx = packet_idx }

-- The writer after `n` more messages and `packets`.
abbrev pub finished : MoldWriter → ℕ → List Bytes → MoldWriter
finished w n packets = record w {
  f = w.f ++ join packets;
  seq = w.seq + length w.batch + n;
  batch = [];
  packets = w.packets + length packets;
  messages = w.messages + n;
}

-- The writer after one packet with the whole batch.
abbrev pub flushed : MoldWriter → Bytes → MoldWriter
flushed w packet = record w {
  f = w.f ++ packet;
  seq = w.seq + length w.batch;
  packets = w.packets + 1;
  batch = [];
}

pub flush_lem :
    (w : MoldWriter)
    → is_empty w.batch ≡ false
    → flush w ≡ (pack_packet w.session w.seq w.batch >>= λ packet. ok (flushed w packet))
unfolding flush
flush_lem w h = rw h refl

pub wrap_flush_lem :
    (session : Bytes) (w : MoldWriter) (packet_idx : ℕ)
    → is_empty w.batch ≡ false
    → wrap_flush session none (state_of w packet_idx) ≡ (
        pack_packet session w.seq w.batch >>= λ packet.
        ok (some packet, state_of (flushed w packet) (packet_idx + 1)))
unfolding wrap_flush
wrap_flush_lem session w packet_idx h = rw h refl

-- Two ways to count what follows a packet.
pub finished-flushed :
    (w : MoldWriter) (packet : Bytes) (n : ℕ) (packets : List Bytes)
    → finished (flushed w packet) n packets ≡ finished w n (packet ∷ packets)
unfolding join
finished-flushed w packet n packets =
    let file = append_assoc w.f packet (join packets) in
    let count : w.packets + 1 + length packets ≡ w.packets + length (packet ∷ packets) =
      omega arith in
    let seq : w.seq + length w.batch + 0 + n ≡ w.seq + length w.batch + n = omega arith in
    rw (file, count, seq) refl

-- A message that is added to the batch counts as one that is to come.
pub finished-added :
    (w : MoldWriter) (msg : Bytes) (n : ℕ) (packets : List Bytes)
    → finished (record w { batch = w.batch ++ msg ∷ []; messages = w.messages + 1 }) n packets
      ≡ finished w (suc n) packets
finished-added w msg n packets =
    let longer = length-append w.batch (msg ∷ []) in
    let seq : w.seq + length (w.batch ++ msg ∷ []) + n ≡ w.seq + length w.batch + suc n =
      omega (arith, longer) in
    let messages : w.messages + 1 + n ≡ w.messages + suc n = omega arith in rw (seq, messages) refl
