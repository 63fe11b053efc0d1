-- ===== src/Mold/Reader.antt =====
-- A reader of MoldUDP64 streams, and what it finds in one packet of model/moldwrap.py.
use hft_rtl.Prelude.{
  ℕ, zero, suc, ◌+◌, ◌^◌, ◌<◌, ◌≡◌, refl, List, [], ◌∷◌, ◌++◌, false, nat_eq, if◌then◌else◌, length,
  Option, none, some, append_assoc, arith, All, take-append_exact, drop-append_exact,
}
use hft_rtl.Prelude.Bytes.{
  Bytes, be, of_be, of_be-be, length-be, pack_be_lem, pack_s, length-pack_s, split_at, join,
}
use hft_rtl.Prelude.Result.{ok}
use hft_rtl.Mold.{pack_messages, pack_packet, pack_hdr, end_marker}

abbrev pub Numbered : Type 0
Numbered = List (ℕ × Bytes)

-- The messages of one packet, numbered from the packet's sequence number on, and what follows it.
unfoldable pub read_body : ℕ → ℕ → Bytes → Numbered × Bytes
read_body zero number bs = ([], bs)
read_body (suc count) number bs =
    let (len, after_len) = split_at 2 bs in
    let (msg, next) = split_at (of_be len) after_len in
    let (msgs, rest) = read_body count (number + 1) next in ((number, msg) ∷ msgs, rest)

-- The messages of a stream, and the number in its end-of-session packet.
unfoldable pub read_stream : ℕ → Bytes → Numbered × Option ℕ
read_stream zero bs = ([], none)
read_stream (suc fuel) bs =
    let (session, after_session) = split_at 10 bs in
    let (seq, after_seq) = split_at 8 after_session in
    let (count, body) = split_at 2 after_seq in
    let (msgs, rest) = read_body (of_be count) (of_be seq) body in
    let (more, ended) = read_stream fuel rest in
    if nat_eq (of_be count) 65535 then ([], some (of_be seq)) else (msgs ++ more, ended)

-- A whole stream: messages, and the number at its end.
abbrev pub whole : Numbered → ℕ → Numbered × Option ℕ
whole msgs number = (msgs, some number)

-- Messages numbered one after the other.
unfoldable pub number_from : ℕ → List Bytes → Numbered
number_from number [] = []
number_from number (msg ∷ msgs) = (number, msg) ∷ number_from (number + 1) msgs

pub number_from-append :
    (n : ℕ) (ms ns : List Bytes)
    → number_from n (ms ++ ns) ≡ number_from n ms ++ number_from (n + length ms) ns
unfolding number_from
number_from-append n [] ns = let same : n + 0 ≡ n = omega arith in rw same refl
number_from-append n (m ∷ ms) ns =
    let same : n + 1 + length ms ≡ n + length (m ∷ ms) = omega arith in
    rw (number_from-append (n + 1) ms ns, same) refl

abbrev pub Fits : Bytes → Type 0
Fits msg = length msg < 256 ^ 2

unfoldable pub body_of : List Bytes → Bytes
body_of [] = []
body_of (m ∷ ms) = be 2 (length m) ++ (m ++ body_of ms)

pack_messages_lem : (ms : List Bytes) → All Fits ms → pack_messages ms ≡ ok (body_of ms)
unfolding pack_messages body_of
pack_messages_lem [] h = refl
pack_messages_lem (m ∷ ms) h = rw (pack_be_lem 2 (length m) h.0, pack_messages_lem ms h.1) refl

unfoldable pub hdr_of : Bytes → ℕ → ℕ → Bytes
hdr_of session seq count = pack_s 10 session ++ (be 8 seq ++ be 2 count)

pub pack_hdr_lem :
    (session : Bytes) (seq count : ℕ)
    → seq < 256 ^ 8
    → count < 256 ^ 2
    → pack_hdr session seq count ≡ ok (hdr_of session seq count)
unfolding pack_hdr hdr_of
pack_hdr_lem session seq count hs hc = rw (pack_be_lem 8 seq hs, pack_be_lem 2 count hc) refl

pub pack_packet_lem :
    (session : Bytes) (seq : ℕ) (ms : List Bytes)
    → seq < 256 ^ 8
    → length ms < 256 ^ 2
    → All Fits ms
    → pack_packet session seq ms ≡ ok (hdr_of session seq (length ms) ++ body_of ms)
unfolding pack_packet
pack_packet_lem session seq ms hs hc h =
    rw (pack_messages_lem ms h, pack_hdr_lem session seq (length ms) hs hc) refl

read_body-body_of :
    (n : ℕ) (ms : List Bytes) (rest : Bytes)
    → All Fits ms
    → read_body (length ms) n (body_of ms ++ rest) ≡ (number_from n ms, rest)
unfolding read_body body_of number_from
read_body-body_of n [] rest h = refl
read_body-body_of n (m ∷ ms) rest h =
    rw
      (
        append_assoc (be 2 (length m)) (m ++ body_of ms) rest,
        append_assoc m (body_of ms) rest,
        take-append_exact 2 (be 2 (length m)) (m ++ (body_of ms ++ rest)) (length-be 2 (length m)),
        drop-append_exact 2 (be 2 (length m)) (m ++ (body_of ms ++ rest)) (length-be 2 (length m)),
        of_be-be 2 (length m) h.0,
        take-append_exact (length m) m (body_of ms ++ rest) refl,
        drop-append_exact (length m) m (body_of ms ++ rest) refl,
        read_body-body_of (n + 1) ms rest h.1,
      )
      refl

-- What the reader does after a header.
read_stream-hdr_of :
    (fuel : ℕ) (session : Bytes) (seq count : ℕ) (body : Bytes)
    → seq < 256 ^ 8
    → count < 256 ^ 2
    → read_stream (suc fuel) (hdr_of session seq count ++ body) ≡ (
        let (msgs, rest) = read_body count seq body in
        let (more, ended) = read_stream fuel rest in
        if nat_eq count 65535 then ([], some seq) else (msgs ++ more, ended))
unfolding read_stream hdr_of
read_stream-hdr_of fuel session seq count body hs hc =
    rw
      (
        append_assoc (pack_s 10 session) (be 8 seq ++ be 2 count) body,
        append_assoc (be 8 seq) (be 2 count) body,
        drop-append_exact 10 (pack_s 10 session) (be 8 seq ++ (be 2 count ++ body))
            (length-pack_s 10 session),
        take-append_exact 8 (be 8 seq) (be 2 count ++ body) (length-be 8 seq),
        drop-append_exact 8 (be 8 seq) (be 2 count ++ body) (length-be 8 seq),
        take-append_exact 2 (be 2 count) body (length-be 2 count),
        drop-append_exact 2 (be 2 count) body (length-be 2 count),
        of_be-be 8 seq hs,
        of_be-be 2 count hc,
      )
      refl

pub read_stream-packet :
    (fuel : ℕ) (session : Bytes) (seq : ℕ) (ms : List Bytes) (rest : Bytes)
    → seq < 256 ^ 8
    → length ms < 65535
    → All Fits ms
    → read_stream (suc fuel) ((hdr_of session seq (length ms) ++ body_of ms) ++ rest)
      ≡ (number_from seq ms ++ (read_stream fuel rest).0, (read_stream fuel rest).1)
read_stream-packet fuel session seq ms rest hs hc h =
    let more : nat_eq (length ms) 65535 ≡ false = ground arith in
    rw
      (
        append_assoc (hdr_of session seq (length ms)) (body_of ms) rest,
        read_stream-hdr_of fuel session seq (length ms) (body_of ms ++ rest) hs (omega arith),
        more,
        read_body-body_of seq ms rest h,
      )
      refl

pub read_stream-end :
    (fuel : ℕ) (session : Bytes) (seq : ℕ)
    → seq < 256 ^ 8
    → read_stream (suc fuel) (join (hdr_of session seq end_marker ∷ [])) ≡ ([], some seq)
unfolding join
read_stream-end fuel session seq hs =
    read_stream-hdr_of fuel session seq end_marker [] hs (omega arith)
