-- ===== src/Mold/Count.antt =====
-- The messages that `MoldWriter` of model/moldwrap.py counts.
use hft_rtl.Prelude.{◌+◌, ◌≡◌, [], ◌∷◌, ◌++◌, nat_eq, length, arith, Bool-cases, inl, inr}
use hft_rtl.Prelude.Bytes.{Bytes}
use hft_rtl.Prelude.Result.{ok, Result-cases, >>=-eq-ok}
use hft_rtl.Mold.{pack_packet, end_of_session_packet, MoldWriter, is_empty, flush, add, close}

flush-messages : (w w' : MoldWriter) → flush w ≡ ok w' → w'.messages ≡ w.messages
unfolding flush
flush-messages w w' e = elim (Bool-cases (is_empty w.batch)) [
  | inl empty ↦ ground arith
  | inr full ↦ elim (Result-cases (pack_packet w.session w.seq w.batch)) [
    | inl (packet, made) ↦ ground arith
    | inr (x, made) ↦ ground arith
  ]
]

-- A message that is added is counted, and closing counts none.
pub add-messages :
    (w w' : MoldWriter) (payload : Bytes) → add w payload ≡ ok w' → w'.messages ≡ w.messages + 1
unfolding add
add-messages w w' payload e =
    let longer = record w { batch = w.batch ++ payload ∷ []; messages = w.messages + 1 } in
    elim (Bool-cases (nat_eq (length longer.batch) w.msgs_per_packet)) [
      | inl full ↦ flush-messages longer w' (rw full at e)
      | inr room ↦ ground arith
    ]

pub close-messages : (w w' : MoldWriter) → close w ≡ ok w' → w'.messages ≡ w.messages
unfolding close
close-messages w w' e =
    let (w1, e1, e2) = >>=-eq-ok (flush w) _ e in
    let (packet, e3, e4) = >>=-eq-ok (end_of_session_packet w1.session w1.seq) _ e2 in
    let is : record w1 { f = w1.f ++ packet; packets = w1.packets + 1 } ≡ w' = cc e4 in
    rw (← is) (flush-messages w w1 e1)
