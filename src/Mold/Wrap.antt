-- ===== src/Mold/Wrap.antt =====
-- `class MoldWriter` and `wrap` of model/moldwrap.py write the same stream.
use hft_rtl.Prelude.{
  ℕ, suc, ◌+◌, ◌≡◌, refl, sym, ap, ◌∙◌, List, [], ◌∷◌, ◌++◌, true, false, nat_eq, length, none,
  append-nil, arith, Bool-cases, inl, inr,
}
use hft_rtl.Prelude.Bytes.{Bytes, join}
use hft_rtl.Prelude.Result.{ok, ◌>>=◌, Result-cases, >>=-ext, >>=-assoc}
use hft_rtl.Mold.{
  pack_packet, pack_hdr, session_field, end_marker, end_of_session_packet, MoldWriter, init,
  is_empty, flush, add, close, write_all, wrap_flush, if_some, wrap_from, wrap,
}
use hft_rtl.Mold.Flush.{
  is_empty_iff, length-session_field, session_field_full, is_empty-append_one, state_of, finished,
  flushed, flush_lem, wrap_flush_lem, finished-flushed, finished-added,
}

abbrev pub Agrees : MoldWriter → ℕ → List Bytes → Type 0
Agrees w packet_idx msgs = write_all w msgs ≡ (
    wrap_from w.session w.msgs_per_packet none (state_of w packet_idx) msgs >>= λ packets.
    ok (finished w (length msgs) packets))

close_flushed :
    (w : MoldWriter)
    → length w.session ≡ 10
    → w.batch ≡ []
    → close w
      ≡ (pack_hdr w.session w.seq end_marker >>= λ trailer. ok (finished w 0 (trailer ∷ [])))
unfolding close flush end_of_session_packet join
close_flushed w h e =
    rw (e, session_field_full w.session h)
      (>>=-ext (pack_hdr w.session w.seq end_marker) _ _ (λ trailer.
        let seq : w.seq + 0 + 0 ≡ w.seq = omega arith in
        let messages : w.messages + 0 ≡ w.messages = omega arith in
        rw (seq, messages, append-nil trailer) refl))

close_empty :
    (w : MoldWriter) (packet_idx : ℕ)
    → is_empty w.batch ≡ true
    → length w.session ≡ 10
    → Agrees w packet_idx []
unfolding write_all wrap_from wrap_flush
close_empty w packet_idx e h =
    let hdr = pack_hdr w.session w.seq end_marker in
    close_flushed w h (is_empty_iff w.batch e)
    ∙ sym
        (rw e (>>=-assoc hdr (λ trailer. ok (trailer ∷ [])) (λ packets. ok (finished w 0 packets))))

close-wrap_from : (w : MoldWriter) (packet_idx : ℕ) → length w.session ≡ 10 → Agrees w packet_idx []
unfolding write_all wrap_from close flush wrap_flush
close-wrap_from w packet_idx h = elim (Bool-cases (is_empty w.batch)) [
  | inl empty ↦ close_empty w packet_idx empty h
  | inr full ↦ elim (Result-cases (pack_packet w.session w.seq w.batch)) [
    | inl (packet, e) ↦
        let hdr = pack_hdr w.session (w.seq + length w.batch) end_marker in
        rw (full, e)
          (close_flushed (flushed w packet) h refl
            ∙ >>=-ext hdr _ _ (λ trailer. ap ok (finished-flushed w packet 0 (trailer ∷ [])))
            ∙ sym (
                >>=-assoc hdr (λ trailer. ok (packet ∷ trailer ∷ []))
                  (λ packets. ok (finished w 0 packets))))
    | inr (x, e) ↦ rw (full, e) refl
  ]
]

module _ (w : MoldWriter) (packet_idx : ℕ) (msg : Bytes) (msgs : List Bytes) where
  -- The writer with the message in its batch.
  abbrev added : MoldWriter
  added = record w { batch = w.batch ++ msg ∷ []; messages = w.messages + 1 }

  write_all_full :
      nat_eq (length added.batch) w.msgs_per_packet ≡ true
      → write_all w (msg ∷ msgs) ≡ (flush added >>= λ w'. write_all w' msgs)
  unfolding write_all add
  write_all_full h = rw h refl

  write_all_room :
      nat_eq (length added.batch) w.msgs_per_packet ≡ false
      → write_all w (msg ∷ msgs) ≡ write_all added msgs
  unfolding write_all add
  write_all_room h = rw h refl

  wrap_from_full :
      nat_eq (length added.batch) w.msgs_per_packet ≡ true
      → wrap_from w.session w.msgs_per_packet none (state_of w packet_idx) (msg ∷ msgs) ≡ (
          wrap_flush w.session none (state_of added packet_idx) >>= λ flushed.
          wrap_from w.session w.msgs_per_packet none flushed.1 msgs >>= λ packets.
          ok (if_some flushed.0 packets))
  unfolding wrap_from
  wrap_from_full h = rw (h, wrap_from) refl

  wrap_from_room :
      nat_eq (length added.batch) w.msgs_per_packet ≡ false
      → wrap_from w.session w.msgs_per_packet none (state_of w packet_idx) (msg ∷ msgs)
        ≡ wrap_from w.session w.msgs_per_packet none (state_of added packet_idx) msgs
  unfolding wrap_from
  wrap_from_room h = rw (h, wrap_from) refl

full-wrap_from :
    (w : MoldWriter) (packet_idx : ℕ) (msgs : List Bytes) (result : List Bytes → MoldWriter)
    → is_empty w.batch ≡ false
    → ((packet : Bytes) (packets : List Bytes)
        → finished (flushed w packet) (length msgs) packets ≡ result (packet ∷ packets))
    → ((packet : Bytes) → Agrees (flushed w packet) (packet_idx + 1) msgs)
    → (flush w >>= λ w'. write_all w' msgs) ≡ (
        (wrap_flush w.session none (state_of w packet_idx) >>= λ flushed.
        wrap_from w.session w.msgs_per_packet none flushed.1 msgs >>= λ packets.
        ok (if_some flushed.0 packets))
        >>= λ packets. ok (result packets))
full-wrap_from w packet_idx msgs result full same rest =
    rw (flush_lem w full, wrap_flush_lem w.session w packet_idx full)
      (elim (Result-cases (pack_packet w.session w.seq w.batch)) [
        | inl (packet, e) ↦
            let later =
              wrap_from w.session w.msgs_per_packet none
                (state_of (flushed w packet) (packet_idx + 1)) msgs in
            rw
              (
                e,
                rest packet,
                >>=-assoc later (λ packets. ok (packet ∷ packets)) (λ packets. ok (result packets)),
              )
              (>>=-ext later _ _ (λ packets. ap ok (same packet packets)))
        | inr (x, e) ↦ rw e refl
      ])

write_all-wrap_from :
    (w : MoldWriter) (packet_idx : ℕ) (msgs : List Bytes)
    → length w.session ≡ 10
    → Agrees w packet_idx msgs
write_all-wrap_from w packet_idx [] h = close-wrap_from w packet_idx h
write_all-wrap_from w packet_idx (msg ∷ msgs) h =
    let w' = record w { batch = w.batch ++ msg ∷ []; messages = w.messages + 1 } in
    let n = length msgs in
    elim (Bool-cases (nat_eq (length w'.batch) w.msgs_per_packet)) [
      | inl full ↦
          rw (write_all_full w packet_idx msg msgs full, wrap_from_full w packet_idx msg msgs full)
            (full-wrap_from w' packet_idx msgs (finished w (suc n))
              (is_empty-append_one w.batch msg)
              (λ packet packets.
                finished-flushed w' packet n packets ∙ finished-added w msg n (packet ∷ packets))
              (λ packet. write_all-wrap_from (flushed w' packet) (packet_idx + 1) msgs h))
      | inr room ↦
          rw (write_all_room w packet_idx msg msgs room, wrap_from_room w packet_idx msg msgs room)
            (write_all-wrap_from w' packet_idx msgs h
              ∙ >>=-ext (wrap_from w.session w.msgs_per_packet none (state_of w' packet_idx) msgs) _
                  _ (λ packets. ap ok (finished-added w msg n packets)))
    ]

-- Writing messages through a new `MoldWriter` and closing it gives what `wrap` gives, without a gap:
-- its packets joined, as many packets and messages counted, and an exception if it raises.
pub write_all-wrap :
    (f session : Bytes) (msgs_per_packet start_seq : ℕ) (msgs : List Bytes)
    → write_all (init f session msgs_per_packet start_seq) msgs ≡ (
        wrap msgs session msgs_per_packet start_seq none >>= λ packets. ok (record {
          f = f ++ join packets;
          session = session_field session;
          msgs_per_packet = msgs_per_packet;
          seq = start_seq + length msgs;
          batch = [];
          packets = length packets;
          messages = length msgs;
        }))
unfolding wrap
write_all-wrap f session n start msgs =
    let w = init f session n start in
    let seq : start + 0 + length msgs ≡ start + length msgs = omega arith in
    let messages : 0 + length msgs ≡ length msgs = omega arith in
    write_all-wrap_from w 0 msgs (length-session_field session)
    ∙ >>=-ext (wrap_from (session_field session) n none (state_of w 0) msgs) _ _ (λ packets.
      let count : 0 + length packets ≡ length packets = omega arith in
      rw (seq, messages, count) refl)
