-- ===== src/Strategy.antt =====
-- `class Strategy` of model/strategy.py: a state machine for each symbol over the imbalance of its
-- book, and the buy and sell intents. A method returns the new strategy beside its result, or raises.
pub mod Edge
pub mod Fires
pub mod Cooldown
pub mod Total
use hft_rtl.Prelude.{
  ℕ, ◌+◌, ◌*◌, ◌/◌, ◌^◌, Bool, true, false, not, ◌&&◌, ◌||◌, Option, none, some, List, [], ◌∷◌, ltb,
  leb, nat_eq, if◌then◌else◌, Text, get_elem?, set, replicate,
}
use hft_rtl.Prelude.Result.{Result, ok, ◌>>=◌, or_raise, index_error}
use hft_rtl.Book.{Level}
use hft_rtl.Market.{Event}

-- `NEUTRAL`, `LONG`, `SHORT`
pub data State : Type 0 where
  neutral long short : State

pub record Strategy : Type 0 where
  pub num_symbols : ℕ
  pub thresh_log2 : ℕ
  pub cooldown_updates : ℕ
  pub order_shares : ℕ
  pub state : List State
  pub updates_since_fire : List (Option ℕ)
  pub intent_count : ℕ

pub record Intent : Type 0 where
  pub symbol_idx : ℕ
  pub side : Text
  pub shares : ℕ
  pub price : ℕ
  pub bid0 : ℕ
  pub ask0 : ℕ

abbrev pub init : ℕ → ℕ → ℕ → ℕ → Strategy
init num_symbols thresh_log2 cooldown_updates order_shares = record {
  num_symbols = num_symbols;
  thresh_log2 = thresh_log2;
  cooldown_updates = cooldown_updates;
  order_shares = order_shares;
  state = replicate num_symbols neutral;
  updates_since_fire = replicate num_symbols none;
  intent_count = 0;
}

-- `sum(sh >> i for i, (_, sh) in enumerate(levels))`, from the index `i` on.
unfoldable pub mass : ℕ → List Level → ℕ
mass i [] = 0
mass i (level ∷ levels) = level.shares / 2 ^ i + mass (i + 1) levels

unfoldable pub classify : ℕ → ℕ → ℕ → State
classify thresh_log2 mass_b mass_a =
    if ltb (mass_a * 2 ^ thresh_log2) mass_b
    then long
    else if ltb (mass_b * 2 ^ thresh_log2) mass_a
    then short
    else neutral

abbrev pub is_long : State → Bool
is_long neutral = false
is_long long = true
is_long short = false

abbrev pub is_short : State → Bool
is_short neutral = false
is_short long = false
is_short short = true

abbrev pub new_state_of : Strategy → Event → State
new_state_of s ev = classify s.thresh_log2 (mass 0 ev.bid) (mass 0 ev.ask)

abbrev pub is_suppressed : ℕ → Option ℕ → Bool
is_suppressed cooldown_updates none = false
is_suppressed cooldown_updates (some k) = ltb k cooldown_updates

-- `levels[0]`
abbrev pub first_level : List Level → Result Level
first_level [] = or_raise index_error none
first_level (level ∷ levels) = ok level

-- The intent of an edge, from the prices of the two best levels.
unfoldable pub price_intent : Strategy → ℕ → Bool → Bool → ℕ → ℕ → Option Intent
price_intent s idx fire_buy fire_sell bid0_px ask0_px =
    if fire_buy && not (nat_eq ask0_px 0)
    then some (record {
      symbol_idx = idx;
      side = b'B' ∷ [];
      shares = s.order_shares;
      price = ask0_px;
      bid0 = bid0_px;
      ask0 = ask0_px;
    })
    else if fire_sell && not (nat_eq bid0_px 0)
    then some (record {
      symbol_idx = idx;
      side = b'S' ∷ [];
      shares = s.order_shares;
      price = bid0_px;
      bid0 = bid0_px;
      ask0 = ask0_px;
    })
    else none

unfoldable pub make_intent : Strategy → Event → State → State → Option ℕ → Result (Option Intent)
make_intent s ev old_state new_state since =
    let fire_buy = is_long new_state && not (is_long old_state) in
    let fire_sell = is_short new_state && not (is_short old_state) in
    if (fire_buy || fire_sell) && not (is_suppressed s.cooldown_updates since)
    then (do
      bid0 ← first_level ev.bid
      ask0 ← first_level ev.ask
      ok (price_intent s ev.symbol_idx fire_buy fire_sell bid0.price ask0.price))
    else ok none

-- `updates_since_fire[idx]` after the update.
abbrev pub next_since : ℕ → Option ℕ → Option Intent → Option ℕ
next_since cooldown_updates since (some intent) = some 0
next_since cooldown_updates none none = none
next_since cooldown_updates (some k) none =
    if leb cooldown_updates (k + 1) then none else some (k + 1)

abbrev pub count_intent : Option Intent → ℕ
count_intent none = 0
count_intent (some intent) = 1

unfoldable pub on_update : Strategy → Event → Result (Strategy × Option Intent)
on_update s ev = do
  let idx = ev.symbol_idx
  old_state ← or_raise index_error (get_elem? s.state idx)
  let new_state = new_state_of s ev
  since ← or_raise index_error (get_elem? s.updates_since_fire idx)
  intent ← make_intent s ev old_state new_state since
  ok (
    record s {
      state = set s.state idx new_state;
      updates_since_fire =
          set s.updates_since_fire idx (next_since s.cooldown_updates since intent);
      intent_count = s.intent_count + count_intent intent;
    },
    intent,
  )
