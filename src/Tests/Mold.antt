-- ===== src/Tests/Mold.antt =====
-- model/moldwrap.py on concrete messages.
use hft_rtl.Prelude.{ℕ, ◌+◌, ◌^◌, ◌≡◌, refl, List, [], ◌∷◌, ◌++◌, arith, some, none, length}
use hft_rtl.Prelude.Bytes.{Bytes, be, of_be, pack_be, pack_s, ljust_with, join}
use hft_rtl.Prelude.Result.{ok, raise, ◌>>=◌, struct_error}
use hft_rtl.Mold.{
  init, pack_messages, pack_hdr, pack_packet, session_field, end_of_session_packet, flush, add,
  close, write_all, wrap_flush, wrap_from, wrap,
}
use hft_rtl.Mold.Wrap.{write_all-wrap}
use hft_rtl.Mold.Reader.{read_body, read_stream, number_from}
use hft_rtl.Mold.Stream.{wrap-read_stream}

program : Unit {0}
unfolding pack_messages pack_hdr pack_packet session_field end_of_session_packet flush add close
    write_all wrap_flush wrap_from wrap be of_be pack_be pack_s ljust_with join read_body
    read_stream number_from
program = tt

abbrev session : Bytes
session = b'S' ∷ b'1' ∷ []

abbrev msgs : List Bytes
msgs = (7 ∷ 8 ∷ []) ∷ (9 ∷ []) ∷ [] ∷ []

abbrev hdr : ℕ → ℕ → ℕ → Bytes
hdr seq high low =
    b'S' ∷ b'1' ∷ 0 ∷ 0 ∷ 0 ∷ 0 ∷ 0 ∷ 0 ∷ 0 ∷ 0 ∷ 0 ∷ 0 ∷ 0 ∷ 0 ∷ 0 ∷ 0 ∷ 0 ∷ seq ∷ high ∷ low ∷ []

abbrev packets : List Bytes
packets =
    (hdr 5 0 2 ++ 0 ∷ 2 ∷ 7 ∷ 8 ∷ 0 ∷ 1 ∷ 9 ∷ []) ∷ (hdr 7 0 1 ++ 0 ∷ 0 ∷ []) ∷ hdr 8 255 255 ∷ []

wraps : wrap msgs session 2 5 none ≡ ok packets
unfolding program
wraps = refl

-- A gap after the first packet skips a number.
wraps_with_gap :
    wrap msgs session 2 5 (some 1)
    ≡ ok (
        (hdr 5 0 2 ++ 0 ∷ 2 ∷ 7 ∷ 8 ∷ 0 ∷ 1 ∷ 9 ∷ [])
        ∷ (hdr 8 0 1 ++ 0 ∷ 0 ∷ [])
        ∷ hdr 9 255 255
        ∷ [])
unfolding program
wraps_with_gap = refl

raises_on_sequence : wrap msgs session 2 (256 ^ 8) none ≡ raise struct_error
unfolding program
raises_on_sequence = refl

write_all-wrap_example : write_all (init [] session 2 5) msgs ≡ (
    wrap msgs session 2 5 none >>= λ ps. ok (record {
      f = [] ++ join ps;
      session = session_field session;
      msgs_per_packet = 2;
      seq = 5 + length msgs;
      batch = [];
      packets = length ps;
      messages = length msgs;
    }))
write_all-wrap_example = write_all-wrap [] session 2 5 msgs

wrap-read_stream_example :
    (ps : List Bytes) × (wrap msgs session 2 5 none ≡ ok ps)
    × (read_stream (length ps) (join ps) ≡ (number_from 5 msgs, some (5 + length msgs)))
wrap-read_stream_example =
    wrap-read_stream msgs session 2 5 (omega arith) (omega arith)
      (omega arith, (omega arith, (omega arith, tt))) (omega arith)
