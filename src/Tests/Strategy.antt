-- ===== src/Tests/Strategy.antt =====
-- `Strategy` of model/strategy.py on a short run.
use hft_rtl.Prelude.{
  ℕ, ◌<◌, ◌↔◌, ◌≢◌, ◌*◌, ◌^◌, [], ◌≡◌, refl, ◌⊎◌, Option, none, some, ◌∷◌, arith, get_elem?,
}
use hft_rtl.Prelude.Result.{ok}
use hft_rtl.Book.{Level}
use hft_rtl.Market.{Event}
use hft_rtl.Strategy.{
  Strategy, State, neutral, long, short, Intent, mass, classify, price_intent, make_intent,
  on_update, init, new_state_of,
}
use hft_rtl.Strategy.Edge.{BuysOn, SellsOn, IsQuoted, IsCalm, on_update-Edge}
use hft_rtl.Strategy.Fires.{fired_in, order_of, on_update_fires}
use hft_rtl.Strategy.Cooldown.{Run, done, more, updates_of, fires_of, cooled, Run-cooldown}

program : Unit {0}
unfolding mass classify price_intent make_intent on_update updates_of fires_of
program = tt

abbrev level : ℕ → ℕ → Level
level price shares = record { price = price; shares = shares }

abbrev update : ℕ → ℕ → Event
update bid_shares ask_shares = record {
  symbol_idx = 0;
  bid = level 99 bid_shares ∷ [];
  ask = level 101 ask_shares ∷ [];
}

abbrev fresh : Strategy
fresh = init 1 2 2 100

abbrev buy_intent : Intent
buy_intent = record {
  symbol_idx = 0;
  side = b'B' ∷ [];
  shares = 100;
  price = 101;
  bid0 = 99;
  ask0 = 101;
}

abbrev fired : Strategy
fired = record fresh { state = long ∷ []; updates_since_fire = some 0 ∷ []; intent_count = 1 }

abbrev fell : Strategy
fell = record fired { state = short ∷ []; updates_since_fire = some 1 ∷ [] }

abbrev cooled_down : Strategy
cooled_down = record fell { state = long ∷ []; updates_since_fire = none ∷ [] }

fire_step : on_update fresh (update 401 100) ≡ ok (fired, some buy_intent)
unfolding program
fire_step = refl

strict : on_update fresh (update 400 100) ≡ ok (fresh, none)
unfolding program
strict = refl

cooling_step : on_update fired (update 1 100) ≡ ok (fell, none)
unfolding program
cooling_step = refl

last_cooling_step : on_update fell (update 401 100) ≡ ok (cooled_down, none)
unfolding program
last_cooling_step = refl

cooldown_run : Run fired (update 1 100 ∷ update 401 100 ∷ []) (none ∷ none ∷ []) cooled_down
cooldown_run = more cooling_step (more last_cooling_step done)

abbrev buy_at : ℕ → ℕ → Intent
buy_at bid0 ask0 = order_of fresh (update 401 100) (b'B' ∷ []) ask0 bid0 ask0

abbrev sell_at : ℕ → ℕ → Intent
sell_at bid0 ask0 = order_of fresh (update 401 100) (b'S' ∷ []) bid0 bid0 ask0

on_update-Edge_example :
    (old : State) × (get_elem? fresh.state 0 ≡ some old)
    × (get_elem? fired.state 0 ≡ some (new_state_of fresh (update 401 100)))
    × (BuysOn fresh (update 401 100) old buy_intent ⊎ SellsOn fresh (update 401 100) old buy_intent)
    × (0 < buy_intent.price)
    × (buy_intent.shares ≡ fresh.order_shares)
    × (buy_intent.symbol_idx ≡ 0)
    × IsQuoted (update 401 100) 99 101
    × ((since : Option ℕ) × (get_elem? fresh.updates_since_fire 0 ≡ some since)
        × IsCalm fresh.cooldown_updates since)
on_update-Edge_example = on_update-Edge fresh fired (update 401 100) buy_intent fire_step

on_update_fires_example :
    ((on_update fresh (update 401 100)
        ≡ ok (fired_in fresh (update 401 100) long, some (buy_at 99 101)))
      ↔ ((neutral ≢ long)
          × (mass 0 (update 401 100).ask * 2 ^ 2 < mass 0 (update 401 100).bid)
          × (0 < 101)))
    × ((on_update fresh (update 401 100)
          ≡ ok (fired_in fresh (update 401 100) short, some (sell_at 99 101)))
        ↔ ((neutral ≢ short)
            × (mass 0 (update 401 100).bid * 2 ^ 2 < mass 0 (update 401 100).ask)
            × (0 < 99)))
on_update_fires_example =
    on_update_fires fresh (update 401 100) neutral none (level 99 401) (level 101 100) [] [] refl
      refl tt refl refl

Run-cooldown_example :
    (fires_of 0 (none ∷ none ∷ []) ≡ 0)
    × (get_elem? cooled_down.updates_since_fire 0
        ≡ some (cooled 2 (updates_of 0 (update 1 100 ∷ update 401 100 ∷ []))))
unfolding updates_of
Run-cooldown_example =
    Run-cooldown fresh fired cooled_down (update 401 100) buy_intent
      (update 1 100 ∷ update 401 100 ∷ []) (none ∷ none ∷ []) fire_step cooldown_run (omega arith)
      (omega arith)
