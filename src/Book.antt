-- ===== src/Book.antt =====
-- `class PriceBook` of model/book.py: the top-N price levels of one symbol. A level list is sorted
-- best first. Prices and shares are the unsigned fields of the feed. A method returns the new book
-- beside its result, or raises.
pub mod Levels
pub mod Invariant
pub mod Add
pub mod Depth
pub mod Reduce
pub mod Prices
use hft_rtl.Prelude.{
  ℕ, zero, suc, ◌+◌, ◌-◌, Bool, true, false, Option, none, some, List, [], ◌∷◌, ◌++◌, ltb, leb,
  nat_eq, if◌then◌else◌, Text, text_eq, length, replicate,
}
use hft_rtl.Prelude.Result.{Result, ok, ◌>>=◌, or_raise, index_error}
use mathlib.Core.Option

-- `[price, shares]`
pub record Level : Type 0 where
  pub price : ℕ
  pub shares : ℕ

pub record PriceBook : Type 0 where
  pub n_levels : ℕ
  pub bid : List Level
  pub ask : List Level
  pub evict_count : ℕ
  pub reduce_miss_count : ℕ

abbrev pub init : ℕ → PriceBook
init n_levels = record {
  n_levels = n_levels;
  bid = [];
  ask = [];
  evict_count = 0;
  reduce_miss_count = 0;
}

-- `side == "B"`
unfoldable pub is_bid : Text → Bool
is_bid side = text_eq side (b'B' ∷ [])

abbrev pub side_list : PriceBook → Text → List Level
side_list b side = if is_bid side then b.bid else b.ask

-- The lists are mutated in place: what the book holds once `side`'s list has become `levels`.
abbrev pub with_side : PriceBook → Text → List Level → PriceBook
with_side b side levels =
    if is_bid side then record b { bid = levels } else record b { ask = levels }

-- `price` stands before `other` in a list of this order.
abbrev pub is_better : Bool → ℕ → ℕ → Bool
is_better descending price other = if descending then ltb other price else ltb price other

-- `for level in levels: if level[0] == price: level[1] += shares; return True`; `none` if the loop
-- finds no such level.
unfoldable pub add_to_level : ℕ → ℕ → List Level → Option (List Level)
add_to_level price shares [] = none
add_to_level price shares (level ∷ levels) =
    if nat_eq level.price price
    then some (record level { shares = level.shares + shares } ∷ levels)
    else Option.map (◌∷◌ level) (add_to_level price shares levels)

-- `levels[-1]`
unfoldable pub last_level : List Level → Option Level
last_level [] = none
last_level (level ∷ []) = some level
last_level (level ∷ level' ∷ levels) = last_level (level' ∷ levels)

-- The `while` loop of `add`, from index `idx` with the levels from there on.
unfoldable pub insert_index : Bool → ℕ → ℕ → List Level → ℕ
insert_index descending price idx [] = idx
insert_index descending price idx (level ∷ levels) =
    let next = insert_index descending price (idx + 1) levels in
    if is_better descending price level.price then idx else next

module _ {ℓ} {A : Type ℓ} where
  -- `l.insert(i, x)`
  unfoldable pub insert_at : ℕ → A → List A → List A
  insert_at zero x l = x ∷ l
  insert_at (suc i) x [] = x ∷ []
  insert_at (suc i) x (y ∷ l) = y ∷ insert_at i x l

  -- `l.pop()`, without the element
  unfoldable pub pop_last : List A → List A
  pop_last [] = []
  pop_last (x ∷ []) = []
  pop_last (x ∷ y ∷ l) = x ∷ pop_last (y ∷ l)

-- The end of `add`: insert in order, then drop the new worst level of a list that is too long.
unfoldable pub insert_level : PriceBook → Text → ℕ → ℕ → PriceBook
insert_level b side price shares =
    let levels = side_list b side in
    let idx = insert_index (is_bid side) price 0 levels in
    let longer = insert_at idx (record { price = price; shares = shares }) levels in
    if ltb b.n_levels (length longer)
    then with_side (record b { evict_count = b.evict_count + 1 }) side (pop_last longer)
    else with_side b side longer

-- What `add` does when no level has the price yet.
unfoldable pub add_new : PriceBook → Text → ℕ → ℕ → Result (PriceBook × Bool)
unfolding insert_level
add_new b side price shares =
    let levels = side_list b side in
    let inserted : Result (PriceBook × Bool) = ok (insert_level b side price shares, true) in
    if leb b.n_levels (length levels)
    then (do
      worst ← or_raise index_error (last_level levels)
      if is_better (is_bid side) worst.price price
          then ok (record b { evict_count = b.evict_count + 1 }, false)
          else inserted)
    else inserted

unfoldable pub add : PriceBook → Text → ℕ → ℕ → Result (PriceBook × Bool)
unfolding add_new
add b side price shares = elim (add_to_level price shares (side_list b side)) [
  | some levels ↦ ok (with_side b side levels, true)
  | none ↦ add_new b side price shares
]

-- `for i, level in enumerate(levels): if level[0] == price: …`. What is left of the level is 0 or
-- less exactly when it holds no more than `shares`; it is then popped.
unfoldable pub reduce_level : ℕ → ℕ → List Level → Option (List Level)
reduce_level price shares [] = none
reduce_level price shares (level ∷ levels) =
    if nat_eq level.price price
    then some (
        if leb level.shares shares
        then levels
        else record level { shares = level.shares - shares } ∷ levels)
    else Option.map (◌∷◌ level) (reduce_level price shares levels)

unfoldable pub reduce : PriceBook → Text → ℕ → ℕ → PriceBook × Bool
reduce b side price shares = elim (reduce_level price shares (side_list b side)) [
  | some levels ↦ (with_side b side levels, true)
  | none ↦ (record b { reduce_miss_count = b.reduce_miss_count + 1 }, false)
]

pub record Snapshot : Type 0 where
  pub bid : List Level
  pub ask : List Level

-- `padded` of `snapshot`: `[x] * k` is empty for a negative `k`, as `replicate` is at `n - m ≡ 0`.
unfoldable pub padded : ℕ → List Level → List Level
padded n_levels levels =
    levels ++ replicate (n_levels - length levels) (record { price = 0; shares = 0 })

unfoldable pub snapshot : PriceBook → Snapshot
snapshot b = record { bid = padded b.n_levels b.bid; ask = padded b.n_levels b.ask }
