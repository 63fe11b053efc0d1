-- ===== src/Strategy/Fires.antt =====
-- When `Strategy.on_update` of model/strategy.py fires, and what it then gives and writes.
use native.Mathlib.Nat.{pow-suc, mul_assoc}
use hft_rtl.Prelude.{
  ℕ, zero, suc, ◌+◌, ◌*◌, ◌^◌, ◌<◌, ◌≤◌, ◌≡◌, ◌≢◌, ◌⊎◌, ◌↔◌, ◌∙◌, sym, inl, inr, false, Option,
  some, List, [], ◌∷◌, arith, get_elem?, set, Text, ap,
}
use hft_rtl.Prelude.Result.{ok}
use hft_rtl.Book.{Level}
use hft_rtl.Market.{Event}
use hft_rtl.Strategy.{
  Strategy, State, long, short, Intent, mass, classify, is_suppressed, first_level, make_intent,
  price_intent, on_update,
}
use hft_rtl.Strategy.Edge.{
  IsCalm, suppressed_iff, BuysOn, SellsOn, make_intent-some, on_update-eq-ok,
}

-- The strategy after it fired on the update, which put the symbol into the state.
abbrev pub fired_in : Strategy → Event → State → Strategy
fired_in s ev new = record s {
  state = set s.state ev.symbol_idx new;
  updates_since_fire = set s.updates_since_fire ev.symbol_idx (some 0);
  intent_count = s.intent_count + 1;
}

abbrev pub order_of : Strategy → Event → Text → ℕ → ℕ → ℕ → Intent
order_of s ev side price bid0 ask0 = record {
  symbol_idx = ev.symbol_idx;
  side = side;
  shares = s.order_shares;
  price = price;
  bid0 = bid0;
  ask0 = ask0;
}

abbrev first_char : Text → ℕ
first_char [] = 0
first_char (c ∷ cs) = c

buy_is_no_sell : {C : Type 0} → ◌≡◌ {A = Text} (b'B' ∷ []) (b'S' ∷ []) → C
buy_is_no_sell e = let no : ◌≡◌ {A = ℕ} b'B' b'S' = ap first_char e in absurd (omega (arith, no))

scaled_le : (n t : ℕ) → n ≤ n * 2 ^ t
scaled_le n zero = omega arith
scaled_le n (suc t) =
    let twice : n * 2 ^ t * 2 ≡ n * 2 ^ suc t =
      mul_assoc n (2 ^ t) 2 ∙ ap (λ k. n * k) (sym (pow-suc 2 t)) in
    omega (arith, scaled_le n t, twice)

classify_long : (t b a : ℕ) → a * 2 ^ t < b → classify t b a ≡ long
unfolding classify
classify_long t b a h = ground arith

classify_short : (t b a : ℕ) → b * 2 ^ t < a → classify t b a ≡ short
unfolding classify
classify_short t b a h = ground (arith, scaled_le a t, scaled_le b t)

module _ (s : Strategy) (ev : Event) (old : State) (since : Option ℕ) (bid0 ask0 : Level)
    (bids asks : List Level) (e1 : get_elem? s.state ev.symbol_idx ≡ some old)
    (e2 : get_elem? s.updates_since_fire ev.symbol_idx ≡ some since)
    (calm : IsCalm s.cooldown_updates since) (eb : ev.bid ≡ bid0 ∷ bids)
    (ea : ev.ask ≡ ask0 ∷ asks) where
  first_bid : first_level ev.bid ≡ ok bid0
  first_bid = rw eb

  first_ask : first_level ev.ask ≡ ok ask0
  first_ask = rw ea

  free : is_suppressed s.cooldown_updates since ≡ false
  free = (suppressed_iff s.cooldown_updates since).1 calm

  abbrev buy : Intent
  buy = order_of s ev (b'B' ∷ []) ask0.price bid0.price ask0.price

  abbrev sell : Intent
  sell = order_of s ev (b'S' ∷ []) bid0.price bid0.price ask0.price

  on_update-long :
      old ≢ long
      → mass 0 ev.ask * 2 ^ s.thresh_log2 < mass 0 ev.bid
      → 0 < ask0.price
      → on_update s ev ≡ ok (fired_in s ev long, some buy)
  unfolding on_update make_intent price_intent
  on_update-long was more there =
      let new = classify_long s.thresh_log2 (mass 0 ev.bid) (mass 0 ev.ask) more in
      rw (e1, e2, new) (ground (arith, first_bid, first_ask, free))

  on_update-short :
      old ≢ short
      → mass 0 ev.bid * 2 ^ s.thresh_log2 < mass 0 ev.ask
      → 0 < bid0.price
      → on_update s ev ≡ ok (fired_in s ev short, some sell)
  unfolding on_update make_intent price_intent
  on_update-short was more there =
      let new = classify_short s.thresh_log2 (mass 0 ev.bid) (mass 0 ev.ask) more in
      rw (e1, e2, new) (ground (arith, first_bid, first_ask, free))

  edge_of :
      (s' : Strategy) (i : Intent)
      → on_update s ev ≡ ok (s', some i)
      → (BuysOn s ev old i ⊎ SellsOn s ev old i) × (0 < i.price)
  edge_of s' i e =
      let (old', since', at, at', made, is) = on_update-eq-ok s s' ev (some i) e in
      let same : old' ≡ old = cc in
      let (edge, positive, _, _, _, _) = make_intent-some s ev old' since' i made in
      (rw same at edge, positive)

  -- Let the symbol's state and cooldown be known, no cooldown be running, and the update have a level
  -- on both sides. Then the update fires a buy, in the new state LONG, exactly if the symbol was not
  -- LONG, the mass of the bids is above that of the asks scaled by the threshold, and the first ask
  -- is not 0; and a sell, in the new state SHORT, exactly if it was not SHORT, the mass of the asks is
  -- above the scaled one of the bids, and the first bid is not 0. The buy is at the first ask and the
  -- sell at the first bid, of the strategy's order size; the cooldown starts at 0 and the intent is
  -- counted.
  pub on_update_fires :
      ((on_update s ev ≡ ok (fired_in s ev long, some buy))
        ↔ ((old ≢ long) × (mass 0 ev.ask * 2 ^ s.thresh_log2 < mass 0 ev.bid) × (0 < ask0.price)))
      × ((on_update s ev ≡ ok (fired_in s ev short, some sell)) ↔ (
          (old ≢ short) × (mass 0 ev.bid * 2 ^ s.thresh_log2 < mass 0 ev.ask) × (0 < bid0.price)))
  on_update_fires = (
    (
      λ e.
          let (edge, positive) = edge_of (fired_in s ev long) buy e in
          elim edge [
            | inl (_, was, more, _) ↦ (was, more, positive)
            | inr (side, _, _, _) ↦ buy_is_no_sell side
          ],
      λ (was, more, there). on_update-long was more there,
    ),
    (
      λ e.
          let (edge, positive) = edge_of (fired_in s ev short) sell e in
          elim edge [
            | inl (side, _, _, _) ↦ buy_is_no_sell (sym side)
            | inr (_, was, more, _) ↦ (was, more, positive)
          ],
      λ (was, more, there). on_update-short was more there,
    ),
  )
