-- ===== src/Mold/Stream.antt =====
-- What a reader of MoldUDP64 finds in the packets of `wrap` in model/moldwrap.py.
use hft_rtl.Prelude.{
  ℕ, ◌+◌, ◌^◌, ◌<◌, ◌≡◌, refl, ◌∙◌, List, [], ◌∷◌, ◌++◌, true, false, nat_eq, length, length-append,
  none, some, append-nil, append_assoc, arith, Bool-cases, inl, inr, All, All-append_one,
}
use hft_rtl.Prelude.Bytes.{Bytes, join}
use hft_rtl.Prelude.Result.{ok}
use hft_rtl.Mold.{session_field, end_marker, is_empty, WrapState, wrap_flush, wrap_from, wrap}
use hft_rtl.Mold.Flush.{is_empty_iff, is_empty-append_one}
use hft_rtl.Mold.Reader.{
  read_stream, whole, number_from, number_from-append, Fits, body_of, hdr_of, pack_hdr_lem,
  pack_packet_lem, read_stream-packet, read_stream-end,
}

-- `wrap` succeeds from the state, and a reader of its packets finds the messages of the batch and of
-- the input, numbered from the state's sequence number on, and then the end of the session.
abbrev pub Delivers : Bytes → ℕ → WrapState → List Bytes → Type 0
Delivers session n st msgs =
    (packets : List Bytes) × (wrap_from session n none st msgs ≡ ok packets)
    × (read_stream (length packets) (join packets)
        ≡ (number_from st.seq (st.batch ++ msgs), some (st.seq + length st.batch + length msgs)))

wrap_flush_packet :
    (session : Bytes) (st : WrapState)
    → is_empty st.batch ≡ false
    → st.seq < 256 ^ 8
    → length st.batch < 65535
    → All Fits st.batch
    → wrap_flush session none st
      ≡ ok (
        some (hdr_of session st.seq (length st.batch) ++ body_of st.batch),
        record { seq = st.seq + length st.batch; batch = []; packet_idx = st.packet_idx + 1 },
      )
unfolding wrap_flush
wrap_flush_packet session st full hs hc h =
    rw (full, pack_packet_lem session st.seq st.batch hs (omega arith) h) refl

wrap_flush-none :
    (session : Bytes) (st : WrapState)
    → is_empty st.batch ≡ true
    → wrap_flush session none st ≡ ok (none, st)
unfolding wrap_flush
wrap_flush-none session st empty = rw empty refl

no_numbers : (n : ℕ) → whole [] n ≡ whole (number_from n []) n
unfolding number_from
no_numbers n = refl

wrap_from-end :
    (session : Bytes) (n : ℕ) (st : WrapState)
    → length st.batch < 65535
    → All Fits st.batch
    → st.seq + length st.batch < 256 ^ 8
    → Delivers session n st []
unfolding wrap_from join
wrap_from-end session n st hc h hs = elim (Bool-cases (is_empty st.batch)) [
  | inl empty ↦
      let e = is_empty_iff st.batch empty in
      let small : st.seq < 256 ^ 8 = omega arith in
      let zeros : st.seq + 0 + 0 ≡ st.seq = omega arith in
      (
        hdr_of session st.seq end_marker ∷ [],
        rw
            (
              wrap_flush-none session st empty,
              pack_hdr_lem session st.seq end_marker small (omega arith),
            )
            refl,
        rw (e, zeros) (read_stream-end 0 session st.seq small ∙ no_numbers st.seq),
      )
  | inr full ↦
      let last = st.seq + length st.batch in
      let small : st.seq < 256 ^ 8 = omega arith in
      let zero_more : last + 0 ≡ last = omega arith in
      let trailer = hdr_of session last end_marker in
      (
        (hdr_of session st.seq (length st.batch) ++ body_of st.batch) ∷ trailer ∷ [],
        rw
            (
              wrap_flush_packet session st full small hc h,
              pack_hdr_lem session last end_marker hs (omega arith),
            )
            refl,
        read_stream-packet 1 session st.seq st.batch (join (trailer ∷ [])) small hc h
            ∙ rw
                (
                  read_stream-end 0 session last hs,
                  append-nil st.batch,
                  zero_more,
                  append-nil (number_from st.seq st.batch),
                )
                refl,
      )
]

-- Where a message that is added to the batch stands in the numbering.
rest_end :
    (st : WrapState) (msg : Bytes) (msgs : List Bytes)
    → whole
        (number_from st.seq ((st.batch ++ msg ∷ []) ++ msgs))
        (st.seq + length (st.batch ++ msg ∷ []) + length msgs)
      ≡ whole
          (number_from st.seq (st.batch ++ msg ∷ msgs))
          (st.seq + length st.batch + length (msg ∷ msgs))
rest_end st msg msgs =
    let size = length-append st.batch (msg ∷ []) in
    let last : st.seq + length (st.batch ++ msg ∷ []) + length msgs
        ≡ st.seq + length st.batch + length (msg ∷ msgs) =
      omega (arith, size) in
    rw (append_assoc st.batch (msg ∷ []) msgs, last) refl

numbers_end :
    (st : WrapState) (msg : Bytes) (msgs : List Bytes)
    → whole
        (number_from st.seq (st.batch ++ msg ∷ [])
          ++ number_from (st.seq + length (st.batch ++ msg ∷ [])) msgs)
        (st.seq + length (st.batch ++ msg ∷ []) + 0 + length msgs)
      ≡ whole
          (number_from st.seq (st.batch ++ msg ∷ msgs))
          (st.seq + length st.batch + length (msg ∷ msgs))
numbers_end st msg msgs =
    let batch = st.batch ++ msg ∷ [] in
    let zero_more : st.seq + length batch + 0 ≡ st.seq + length batch = omega arith in
    rw (zero_more, ← number_from-append st.seq batch msgs) (rest_end st msg msgs)

wrap_from-Delivers :
    (session : Bytes) (n : ℕ) (st : WrapState) (msgs : List Bytes)
    → n < 65535
    → length st.batch < n
    → All Fits st.batch
    → All Fits msgs
    → st.seq + length st.batch + length msgs < 256 ^ 8
    → Delivers session n st msgs
unfolding wrap_from join
wrap_from-Delivers session n st [] small room hb h hs =
    wrap_from-end session n st (omega arith) hb (omega arith)
wrap_from-Delivers session n st (msg ∷ msgs) small room hb h hs =
    let batch = st.batch ++ msg ∷ [] in
    let size = length-append st.batch (msg ∷ []) in
    let fits = All-append_one Fits st.batch msg hb h.0 in
    let st' = record st { batch = batch } in
    elim (Bool-cases (nat_eq (length batch) n)) [
      | inl full ↦
          let st2 : WrapState = record {
            seq = st.seq + length batch;
            batch = [];
            packet_idx = st.packet_idx + 1;
          } in
          let fewer : length batch < 65535 = ground (arith, small) in
          let start : st.seq < 256 ^ 8 = omega arith in
          let (packets, e, read) =
            wrap_from-Delivers session n st2 msgs small (omega arith) tt h.1
              (omega (arith, size)) in
          (
            (hdr_of session st.seq (length batch) ++ body_of batch) ∷ packets,
            rw
                (
                  full,
                  wrap_from,
                  wrap_flush_packet session st' (is_empty-append_one st.batch msg) start fewer fits,
                  e,
                )
                refl,
            read_stream-packet (length packets) session st.seq batch (join packets) start fewer fits
                ∙ rw read (numbers_end st msg msgs),
          )
      | inr more ↦
          let (packets, e, read) =
            wrap_from-Delivers session n st' msgs small (ground (arith, size)) fits h.1
              (omega (arith, size)) in
          (packets, rw (more, wrap_from) e, read ∙ rest_end st msg msgs)
    ]

-- Let a packet take at least one and fewer than 65535 messages, each message be shorter than 2^16
-- bytes, and the sequence numbers stay below 2^64. Then `wrap` without a gap succeeds, and a reader of
-- its stream finds all messages in their order, numbered one after the other from `start_seq` on, and
-- then the end of the session with the next number.
pub wrap-read_stream :
    (msgs : List Bytes) (session : Bytes) (n start : ℕ)
    → 0 < n
    → n < 65535
    → All Fits msgs
    → start + length msgs < 256 ^ 8
    → (packets : List Bytes) × (wrap msgs session n start none ≡ ok packets)
      × (read_stream (length packets) (join packets)
          ≡ (number_from start msgs, some (start + length msgs)))
unfolding wrap
wrap-read_stream msgs session n start positive small h hs =
    let st : WrapState = record { seq = start; batch = []; packet_idx = 0 } in
    let zero_more : start + 0 ≡ start = omega arith in
    let (packets, e, read) =
      wrap_from-Delivers (session_field session) n st msgs small positive tt h (omega arith) in
    (packets, e, rw zero_more at read)
