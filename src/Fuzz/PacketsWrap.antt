-- ===== src/Fuzz/PacketsWrap.antt =====
-- `pack_packets` of model/fuzz_stream.py against `wrap` of model/moldwrap.py.
use hft_rtl.Prelude.{
  ℕ, zero, suc, ◌+◌, ◌<◌, ◌≤◌, ◌≡◌, inl, inr, refl, sym, ap, ◌∙◌, false, none, some, List, [], ◌∷◌,
  ◌++◌, take, drop, length, length-append, take-append_exact, drop-append_exact, take_of_length-le,
  drop_of_length-le, append_assoc, append-nil, arith, nat_eq, Bool-cases,
}
use hft_rtl.Prelude.Bytes.{Bytes, pack_be}
use hft_rtl.Prelude.Result.{
  Result, Error, ok, raise, ◌>>=◌, struct_error, Result-cases, >>=-ext, >>=-assoc,
}
use hft_rtl.Mold.{
  pack_messages, pack_hdr, pack_packet, session_field, end_marker, is_empty, WrapState, wrap_flush,
  wrap_from, wrap,
}
use hft_rtl.Mold.Flush.{is_empty_iff, is_empty-append_one}
use hft_rtl.Fuzz.Packets.{extend, pack_batch, pack_batches, pack_packets}

-- Only `struct` raises while a packet is packed.
abbrev RaisesStruct {ℓ} : {A : Type ℓ} → Result A → Type ℓ
RaisesStruct m = (e : Error) → m ≡ raise e → e ≡ struct_error

RaisesStruct-bind {ℓ κ} :
    {A : Type ℓ} {B : Type κ} (m : Result A) (f : A → Result B)
    → RaisesStruct m
    → ((a : A) → RaisesStruct (f a))
    → RaisesStruct (m >>= f)
RaisesStruct-bind (raise x) f h k = λ e is. h e cc
RaisesStruct-bind (ok a) f h k = k a

pack_be-RaisesStruct : (w n : ℕ) → RaisesStruct (pack_be w n)
unfolding pack_be
pack_be-RaisesStruct w n e is = ground (arith, is)

pack_hdr-RaisesStruct :
    (session : Bytes) (seq count : ℕ) → RaisesStruct (pack_hdr session seq count)
unfolding pack_hdr
pack_hdr-RaisesStruct session seq count =
    RaisesStruct-bind (pack_be 8 seq) _ (pack_be-RaisesStruct 8 seq)
      (λ s. RaisesStruct-bind (pack_be 2 count) _ (pack_be-RaisesStruct 2 count) (λ c e is. cc is))

pack_messages-RaisesStruct : (ms : List Bytes) → RaisesStruct (pack_messages ms)
unfolding pack_messages
pack_messages-RaisesStruct [] = λ e is. cc is
pack_messages-RaisesStruct (m ∷ ms) =
    RaisesStruct-bind (pack_be 2 (length m)) _ (pack_be-RaisesStruct 2 (length m)) (λ len.
      RaisesStruct-bind (pack_messages ms) _ (pack_messages-RaisesStruct ms) (λ rest e is. cc is))

extend-pack_messages :
    (pkt : Bytes) (ms : List Bytes)
    → extend pkt ms ≡ (pack_messages ms >>= λ body. ok (pkt ++ body))
unfolding extend pack_messages
extend-pack_messages pkt [] = ap ok (sym (append-nil pkt))
extend-pack_messages pkt (m ∷ ms) = elim (Result-cases (pack_be 2 (length m))) [
  | inl (len, e) ↦
      rw
        (
          e,
          extend-pack_messages ((pkt ++ len) ++ m) ms,
          >>=-assoc (pack_messages ms) (λ rest. ok (len ++ (m ++ rest))) (λ body. ok (pkt ++ body)),
        )
        (>>=-ext (pack_messages ms) _ _
          (λ body. ap ok (append_assoc (pkt ++ len) m body ∙ append_assoc pkt len (m ++ body))))
  | inr (x, e) ↦ rw e refl
]

pub pack_batch-pack_packet :
    (session : Bytes) (seq : ℕ) (ms : List Bytes)
    → pack_batch session seq ms ≡ pack_packet session seq ms
unfolding pack_batch pack_packet
pack_batch-pack_packet session seq ms = elim (Result-cases (pack_messages ms)) [
  | inl (body, e) ↦ elim (Result-cases (pack_hdr session seq (length ms))) [
    | inl (hdr, e') ↦ rw (e, e', extend-pack_messages hdr ms, e) refl
    | inr (x, e') ↦ rw (e, e') refl
  ]
  | inr (x, e) ↦
      let is = pack_messages-RaisesStruct ms x e in
      elim (Result-cases (pack_hdr session seq (length ms))) [
        | inl (hdr, e') ↦ rw (e, e', extend-pack_messages hdr ms, e) refl
        | inr (y, e') ↦ rw (e, e', is, pack_hdr-RaisesStruct session seq (length ms) y e') refl
      ]
]

pack_batches-nil :
    (session : Bytes) (n fuel seq : ℕ) → pack_batches session n fuel seq [] ≡ ok ([], seq)
unfolding pack_batches
pack_batches-nil session n zero seq = refl
pack_batches-nil session n (suc fuel) seq = refl

-- A turn of the loop whose batch is known.
pack_batches-append :
    (session : Bytes) (n fuel seq : ℕ) (batch rest : List Bytes)
    → is_empty batch ≡ false
    → take n (batch ++ rest) ≡ batch
    → drop n (batch ++ rest) ≡ rest
    → pack_batches session n (suc fuel) seq (batch ++ rest) ≡ (
        pack_packet session seq batch >>= λ pkt.
        pack_batches session n fuel (seq + length batch) rest >>= λ more. ok (pkt ∷ more.0, more.1))
unfolding pack_batches
pack_batches-append session n fuel seq [] rest h t d = cc
pack_batches-append session n fuel seq (m ∷ ms) rest h t d =
    rw (t, d, pack_batch-pack_packet session seq (m ∷ ms)) refl

-- What follows the packets in the stream of `wrap`.
abbrev with_trailer : Bytes → Result (List Bytes × ℕ) → Result (List Bytes)
with_trailer session packed = packed >>= λ (r : List Bytes × ℕ).
    pack_hdr session r.1 end_marker >>= λ trailer. ok (r.0 ++ trailer ∷ [])

abbrev Agrees : Bytes → ℕ → ℕ → WrapState → List Bytes → Type 0
Agrees session n fuel st msgs =
    wrap_from session n none st msgs
    ≡ with_trailer session (pack_batches session n fuel st.seq (st.batch ++ msgs))

-- One packet, and what the rest gives.
packet_then :
    (session : Bytes) (seq : ℕ) (packed : Result Bytes) (more : Result (List Bytes × ℕ))
    → (packed >>= λ pkt. with_trailer session more >>= λ rest. ok (pkt ∷ rest))
      ≡ with_trailer session
          (packed >>= λ pkt. more >>= λ (r : List Bytes × ℕ). ok (pkt ∷ r.0, r.1))
packet_then session seq (raise e) more = refl
packet_then session seq (ok pkt) (raise e) = refl
packet_then session seq (ok pkt) (ok r) =
    >>=-assoc (pack_hdr session r.1 end_marker) (λ trailer. ok (r.0 ++ trailer ∷ []))
      (λ rest. ok (pkt ∷ rest))

flush_packet :
    (session : Bytes) (st : WrapState)
    → is_empty st.batch ≡ false
    → wrap_flush session none st ≡ (
        pack_packet session st.seq st.batch >>= λ pkt. ok (
          some pkt,
          record { seq = st.seq + length st.batch; batch = []; packet_idx = st.packet_idx + 1 },
        ))
unfolding wrap_flush
flush_packet session st full = rw full refl

positive_of_full : (batch : List Bytes) → is_empty batch ≡ false → 0 < length batch
positive_of_full [] h = cc
positive_of_full (m ∷ ms) h = omega arith

full_end :
    (session : Bytes) (n fuel : ℕ) (st : WrapState)
    → length st.batch < n
    → length st.batch ≤ fuel
    → is_empty st.batch ≡ false
    → Agrees session n fuel st []
unfolding wrap_from
full_end session n zero st room enough full = absurd (omega (arith, positive_of_full st.batch full))
full_end session n (suc fuel) st room enough full =
    let t : take n (st.batch ++ []) ≡ st.batch =
      rw (append-nil st.batch) (take_of_length-le n st.batch (omega arith)) in
    let d : drop n (st.batch ++ []) ≡ [] =
      rw (append-nil st.batch) (drop_of_length-le n st.batch (omega arith)) in
    let turn = pack_batches-append session n fuel st.seq st.batch [] full t d in
    rw (flush_packet session st full, turn)
      (elim (Result-cases (pack_packet session st.seq st.batch)) [
        | inl (pkt, e) ↦ rw (e, pack_batches-nil session n fuel (st.seq + length st.batch)) refl
        | inr (x, e) ↦ rw e refl
      ])

end-Agrees :
    (session : Bytes) (n fuel : ℕ) (st : WrapState)
    → length st.batch < n
    → length st.batch ≤ fuel
    → Agrees session n fuel st []
unfolding wrap_from wrap_flush
end-Agrees session n fuel st room enough = elim (Bool-cases (is_empty st.batch)) [
  | inl empty ↦ rw (empty, is_empty_iff st.batch empty, pack_batches-nil session n fuel st.seq) refl
  | inr full ↦ full_end session n fuel st room enough full
]

wrap_from-Agrees :
    (session : Bytes) (n fuel : ℕ) (st : WrapState) (msgs : List Bytes)
    → length st.batch < n
    → length st.batch + length msgs ≤ fuel
    → Agrees session n fuel st msgs
unfolding wrap_from
wrap_from-Agrees session n fuel st [] room enough = end-Agrees session n fuel st room (omega arith)
wrap_from-Agrees session n zero st (msg ∷ msgs) room enough = absurd (omega arith)
wrap_from-Agrees session n (suc fuel) st (msg ∷ msgs) room enough =
    let batch = st.batch ++ msg ∷ [] in
    let size = length-append st.batch (msg ∷ []) in
    let st' = record st { batch = batch } in
    let all = append_assoc st.batch (msg ∷ []) msgs in
    elim (Bool-cases (nat_eq (length batch) n)) [
      | inl full ↦
          let st2 : WrapState = record {
            seq = st.seq + length batch;
            batch = [];
            packet_idx = st.packet_idx + 1;
          } in
          let is : length batch ≡ n = ground arith in
          let turn =
            pack_batches-append session n fuel st.seq batch msgs (is_empty-append_one st.batch msg)
              (take-append_exact n batch msgs is) (drop-append_exact n batch msgs is) in
          let rest = wrap_from-Agrees session n fuel st2 msgs (omega arith) (omega arith) in
          rw
            (
              full,
              wrap_from,
              flush_packet session st' (is_empty-append_one st.batch msg),
              ← all,
              turn,
            )
            (elim (Result-cases (pack_packet session st.seq batch)) [
              | inl (pkt, e) ↦
                  rw (e, rest)
                    (packet_then session st.seq (ok pkt) (pack_batches session n fuel st2.seq msgs))
              | inr (x, e) ↦ rw e refl
            ])
      | inr more ↦
          rw (more, wrap_from)
            (wrap_from-Agrees session n (suc fuel) st' msgs (ground (arith, size))
                (omega (arith, size))
              ∙ ap
                  (λ (l : List Bytes).
                    with_trailer session (pack_batches session n (suc fuel) st.seq l))
                  all)
    ]

-- For a positive number of messages per packet, `wrap` without a gap gives the packets of
-- `pack_packets` and then the end-of-session packet with the number that `pack_packets` ends on; where
-- one of them raises, so does the other.
pub wrap-pack_packets :
    (msgs : List Bytes) (session : Bytes) (n start : ℕ)
    → 0 < n
    → wrap msgs session n start none ≡ (
        pack_packets msgs session n start >>= λ packed.
        pack_hdr (session_field session) packed.1 end_marker >>= λ trailer.
        ok (packed.0 ++ trailer ∷ []))
unfolding wrap pack_packets
wrap-pack_packets msgs session zero start h = absurd (omega arith)
wrap-pack_packets msgs session (suc n) start h =
    wrap_from-Agrees (session_field session) (suc n) (length msgs)
      (record { seq = start; batch = []; packet_idx = 0 }) msgs (omega arith) (omega arith)
