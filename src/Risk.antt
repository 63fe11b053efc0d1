-- ===== src/Risk.antt =====
-- `class RiskGate` of model/risk.py: four checks on an intent in a fixed order. A method returns the
-- new gate beside its result, or raises. Positions are signed; all else is unsigned.
pub mod Checks
pub mod Exposure
pub mod Total
use hft_rtl.Prelude.{
  ℕ, ◌+◌, ◌/◌, ◌^◌, Bool, true, false, not, ◌&&◌, List, [], ◌∷◌, ltb, nat_eq, if◌then◌else◌, Text,
  text_eq, get_elem?, set, replicate,
}
use hft_rtl.Prelude.Int.{ℤ, pos, ◌+ℤ◌, sub_ℕ, abs}
use hft_rtl.Prelude.Result.{Result, ok, ◌>>=◌, or_raise, index_error}
use hft_rtl.Strategy.{Intent}

pub record RiskGate : Type 0 where
  pub num_symbols : ℕ
  pub max_position : ℕ
  pub min_order_spacing : ℕ
  pub collar_shift : ℕ
  pub positions : List ℤ
  pub updates_since_accept : ℕ
  pub accept_count : ℕ
  pub sanity_reject_count : ℕ
  pub collar_reject_count : ℕ
  pub rate_reject_count : ℕ
  pub pos_reject_count : ℕ

abbrev pub init : ℕ → ℕ → ℕ → ℕ → RiskGate
init num_symbols max_position min_order_spacing collar_shift = record {
  num_symbols = num_symbols;
  max_position = max_position;
  min_order_spacing = min_order_spacing;
  collar_shift = collar_shift;
  positions = replicate num_symbols (pos 0);
  updates_since_accept = 0;
  accept_count = 0;
  sanity_reject_count = 0;
  collar_reject_count = 0;
  rate_reject_count = 0;
  pos_reject_count = 0;
}

unfoldable pub on_update : RiskGate → RiskGate
on_update r = record r { updates_since_accept = r.updates_since_accept + 1 }

-- `(bid0 + ask0) >> 1`
abbrev pub mid_of : Intent → ℕ
mid_of i = (i.bid0 + i.ask0) / 2

-- `mid >> collar_shift`
abbrev pub band_of : RiskGate → Intent → ℕ
band_of r i = mid_of i / 2 ^ r.collar_shift

abbrev pub is_sane : Intent → Bool
is_sane i = not (nat_eq i.bid0 0) && (not (nat_eq i.ask0 0) && ltb i.bid0 i.ask0)

-- `abs(price - mid) > band`
abbrev pub breaks_collar : RiskGate → Intent → Bool
breaks_collar r i = ltb (band_of r i) (abs (sub_ℕ i.price (mid_of i)))

abbrev pub delta_of : Intent → ℤ
delta_of i = if text_eq i.side (b'B' ∷ []) then pos i.shares else sub_ℕ 0 i.shares

-- The fourth check, and what an accept writes.
unfoldable pub check_position : RiskGate → Intent → Result (RiskGate × Bool)
check_position r i = do
  old_pos ← or_raise index_error (get_elem? r.positions i.symbol_idx)
  let new_pos = old_pos +ℤ delta_of i
  if ltb r.max_position (abs new_pos)
      then ok (record r { pos_reject_count = r.pos_reject_count + 1 }, false)
      else ok (
        record r {
          positions = set r.positions i.symbol_idx new_pos;
          updates_since_accept = 0;
          accept_count = r.accept_count + 1;
        },
        true,
      )

unfoldable pub on_intent : RiskGate → Intent → Result (RiskGate × Bool)
unfolding check_position
on_intent r i =
    if not (is_sane i)
    then ok (record r { sanity_reject_count = r.sanity_reject_count + 1 }, false)
    else if breaks_collar r i
    then ok (record r { collar_reject_count = r.collar_reject_count + 1 }, false)
    else if ltb r.updates_since_accept r.min_order_spacing
    then ok (record r { rate_reject_count = r.rate_reject_count + 1 }, false)
    else check_position r i
