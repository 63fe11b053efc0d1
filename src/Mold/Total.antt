-- ===== src/Mold/Total.antt =====
-- `MoldWriter` of model/moldwrap.py raises nothing while its messages and numbers fit their fields.
use hft_rtl.Prelude.{
  ℕ, ◌+◌, ◌^◌, ◌<◌, ◌≡◌, refl, inl, inr, true, List, [], ◌∷◌, ◌++◌, arith, nat_eq, length,
  length-append, All, All-append_one, Bool-cases,
}
use hft_rtl.Prelude.Bytes.{Bytes}
use hft_rtl.Prelude.Result.{Returns, Returns-bind, Returns-eq}
use hft_rtl.Mold.{
  MoldWriter, init, is_empty, flush, add, close, end_of_session_packet, session_field, end_marker,
}
use hft_rtl.Mold.Reader.{Fits, pack_packet_lem, pack_hdr_lem}

-- The writer has taken `n` messages, `k` of which are in its batch.
pub record IsOpen (n : ℕ) (w : MoldWriter) : Type 0 where
  pub taken : w.seq + length w.batch ≡ 1 + n
  pub fits : All Fits w.batch
  pub room : length w.batch < 256 ^ 2

-- And the batch is not full.
abbrev pub IsAccepting : ℕ → ℕ → MoldWriter → Type 0
IsAccepting per n w = IsOpen n w × (w.msgs_per_packet ≡ per) × (length w.batch < per)

abbrev IsFlushed : ℕ → ℕ → MoldWriter → Type 0
IsFlushed per n w = IsOpen n w × (w.msgs_per_packet ≡ per) × (length w.batch ≡ 0)

empty_batch : (batch : List Bytes) → is_empty batch ≡ true → length batch ≡ 0
empty_batch [] h = refl
empty_batch (m ∷ batch) h = cc

flush-Returns :
    (per n : ℕ) (w : MoldWriter)
    → 1 + n < 256 ^ 8
    → IsOpen n w
    → w.msgs_per_packet ≡ per
    → Returns (IsFlushed per n) (flush w)
unfolding flush
flush-Returns per n w small h same = elim (Bool-cases (is_empty w.batch)) [
  | inl e ↦ rw e (h, same, empty_batch w.batch e)
  | inr e ↦
      let packet = pack_packet_lem w.session w.seq w.batch (omega (arith, h.taken)) h.room h.fits in
      rw (e, packet)
        (record { taken = omega (arith, h.taken); fits = tt; room = omega arith }, same, refl)
]

pub add-Returns :
    (per n : ℕ) (w : MoldWriter) (msg : Bytes)
    → 0 < per
    → per < 256 ^ 2
    → 1 + (n + 1) < 256 ^ 8
    → Fits msg
    → IsAccepting per n w
    → Returns (IsAccepting per (n + 1)) (add w msg)
unfolding add
add-Returns per n w msg some_ most small fit (h, same, room) =
    let longer = length-append w.batch (msg ∷ []) in
    let w' = record w { batch = w.batch ++ msg ∷ []; messages = w.messages + 1 } in
    let open_now : IsOpen (n + 1) w' = record {
      taken = omega (arith, h.taken, longer);
      fits = All-append_one Fits w.batch msg h.fits fit;
      room = omega (arith, longer);
    } in
    elim (Bool-cases (nat_eq (length w'.batch) w.msgs_per_packet)) [
      | inl full ↦
          let (w'', e, (o, s, z)) =
            Returns-eq (IsFlushed per (n + 1)) (flush w')
              (flush-Returns per (n + 1) w' small open_now same) in
          rw (full, e) (o, s, omega (arith, z))
      | inr more ↦ rw more (open_now, same, ground (arith, longer, same))
    ]

pub close-Returns :
    (per n : ℕ) (w : MoldWriter)
    → 1 + n < 256 ^ 8
    → IsAccepting per n w
    → Returns (λ (w : MoldWriter). Unit) (close w)
unfolding close end_of_session_packet
close-Returns per n w small (h, same, room) =
    Returns-bind (IsFlushed per n) (λ (w : MoldWriter). Unit) (flush w) _
      (flush-Returns per n w small h same)
      (λ w' (o, s, z).
        rw
          (pack_hdr_lem (session_field w'.session) w'.seq end_marker (omega (arith, o.taken))
            (omega arith))
          tt)

pub init-IsAccepting :
    (f session : Bytes) (per : ℕ) → 0 < per → IsAccepting per 0 (init f session per 1)
init-IsAccepting f session per h = (record { taken = refl; fits = tt; room = omega arith }, refl, h)
