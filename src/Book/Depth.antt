-- ===== src/Book/Depth.antt =====
-- What `add`, `reduce` and `snapshot` of model/book.py do to the shares at each price, and that
-- they keep the invariant.
use hft_rtl.Prelude.{
  ℕ, ◌+◌, ◌-◌, ◌≤◌, ◌≡◌, ◌∙◌, Bool, ◌&&◌, List, arith, ltb, nat_eq, if◌then◌else◌, Text, length,
  length-append, take, length-take, length-replicate, replicate, Option-cases, inl, inr,
}
use hft_rtl.Prelude.Result.{ok}
use hft_rtl.Book.{Level, PriceBook, is_bid, side_list, add, reduce_level, reduce, padded, snapshot}
use hft_rtl.Book.Levels.{
  shares_at, shares_at-full_add, full_add-IsSorted, take-IsSorted, reduce_level-none,
  reduce_level-IsSorted, length-reduce_level, shares_at-reduce_level,
}
use hft_rtl.Book.Invariant.{
  IsValid, IsValid-side, with_side-IsValid, same_side, side_list-with_side,
}
use hft_rtl.Book.Add.{full_side, after_add, after_add_fits, add-after_add}

-- The shares at a price on one side of the book.
abbrev pub shares_on : PriceBook → Text → ℕ → ℕ
shares_on b side q = shares_at q (side_list b side)

pub after_add-IsValid :
    (b : PriceBook) (side : Text) (price shares : ℕ)
    → IsValid b
    → IsValid (after_add b side price shares)
unfolding after_add
after_add-IsValid b side price shares v =
    let (sorted, fit) = IsValid-side b side v in
    let d = is_bid side in
    let full = full_side b side price shares in
    let count : ℕ = if ltb b.n_levels (length full) then b.evict_count + 1 else b.evict_count in
    with_side-IsValid (record b { evict_count = count }) side (take b.n_levels full)
      (record {
        positive = v.positive;
        bids_sorted = v.bids_sorted;
        asks_sorted = v.asks_sorted;
        bids_fit = v.bids_fit;
        asks_fit = v.asks_fit;
      })
      (take-IsSorted d b.n_levels full (full_add-IsSorted d price shares (side_list b side) sorted))
      (omega (arith, length-take b.n_levels full))

pub evict_count-after_add :
    (b : PriceBook) (side : Text) (price shares : ℕ)
    → b.evict_count ≤ (after_add b side price shares).evict_count
unfolding after_add
evict_count-after_add b side price shares = ground arith

after_add_kept :
    (b : PriceBook) (side : Text) (price shares : ℕ)
    → (after_add b side price shares).evict_count ≡ b.evict_count
    → length (full_side b side price shares) ≤ b.n_levels
unfolding after_add
after_add_kept b side price shares same = ground arith

pub n_levels-after_add :
    (b : PriceBook) (side : Text) (price shares : ℕ)
    → (after_add b side price shares).n_levels ≡ b.n_levels
unfolding after_add
n_levels-after_add b side price shares = ground arith

pub n_levels-reduce :
    (b : PriceBook) (side : Text) (price shares : ℕ)
    → (reduce b side price shares).0.n_levels ≡ b.n_levels
unfolding reduce
n_levels-reduce b side price shares = ground arith

-- An add that drops no level puts its shares at its price, and no others anywhere.
pub shares_on-after_add :
    (b : PriceBook) (side side' : Text) (price shares q : ℕ)
    → IsValid b
    → (after_add b side price shares).evict_count ≡ b.evict_count
    → shares_on (after_add b side price shares) side' q ≡ (
        if same_side side side' && nat_eq price q
        then shares_on b side' q + shares
        else shares_on b side' q)
shares_on-after_add b side side' price shares q v same =
    let (sorted, fit) = IsValid-side b side v in
    let full = full_side b side price shares in
    let fits : length full ≤ b.n_levels = after_add_kept b side price shares same in
    let wrote = after_add_fits b side price shares fits in
    let read = side_list-with_side b side side' full in
    let moved = shares_at-full_add (is_bid side) price shares q (side_list b side) sorted in
    rw wrote (rw read (ground (arith, moved)))

-- A `reduce` of a valid book leaves a valid book.
pub reduce-IsValid :
    (b : PriceBook) (side : Text) (price shares : ℕ)
    → IsValid b
    → IsValid (reduce b side price shares).0
unfolding reduce
reduce-IsValid b side price shares v =
    let (sorted, fit) = IsValid-side b side v in
    elim (Option-cases (reduce_level price shares (side_list b side))) [
      | inl e ↦
          rw (e, reduce)
            (record {
              positive = v.positive;
              bids_sorted = v.bids_sorted;
              asks_sorted = v.asks_sorted;
              bids_fit = v.bids_fit;
              asks_fit = v.asks_fit;
            })
      | inr (ls, e) ↦
          rw (e, reduce)
            (with_side-IsValid b side ls v
              (reduce_level-IsSorted (is_bid side) price shares (side_list b side) sorted e)
              (omega (arith, length-reduce_level price shares (side_list b side) e)))
    ]

pub evict_count-reduce :
    (b : PriceBook) (side : Text) (price shares : ℕ)
    → (reduce b side price shares).0.evict_count ≡ b.evict_count
unfolding reduce
evict_count-reduce b side price shares = ground arith

-- On a valid book a reduction takes its shares from its price, down to 0, and from no other price
-- or side.
pub shares_on-reduce :
    (b : PriceBook) (side side' : Text) (price shares q : ℕ)
    → IsValid b
    → shares_on (reduce b side price shares).0 side' q ≡ (
        if same_side side side' && nat_eq price q
        then shares_on b side' q - shares
        else shares_on b side' q)
unfolding reduce
shares_on-reduce b side side' price shares q v =
    let (sorted, fit) = IsValid-side b side v in
    elim (Option-cases (reduce_level price shares (side_list b side))) [
      | inl e ↦ ground (arith, reduce_level-none (is_bid side) price shares (side_list b side) e)
      | inr (ls, e) ↦ ground (
        arith,
        side_list-with_side b side side' ls,
        shares_at-reduce_level (is_bid side) price shares q (side_list b side) sorted e,
      )
    ]

length-padded : (n : ℕ) (ls : List Level) → length ls ≤ n → length (padded n ls) ≡ n
unfolding padded
length-padded n ls h =
    let zero_level : Level = record { price = 0; shares = 0 } in
    length-append ls (replicate (n - length ls) zero_level)
    ∙ omega (arith, length-replicate (n - length ls) zero_level)

-- A snapshot of a valid book shows exactly `n_levels` levels on each side.
pub length-snapshot :
    (b : PriceBook)
    → IsValid b
    → (length (snapshot b).bid ≡ b.n_levels) × (length (snapshot b).ask ≡ b.n_levels)
unfolding snapshot
length-snapshot b v =
    (length-padded b.n_levels b.bid v.bids_fit, length-padded b.n_levels b.ask v.asks_fit)

-- An `add` to a valid book that returns leaves a valid book.
pub add-IsValid :
    (b b' : PriceBook) (side : Text) (price shares : ℕ) (changed : Bool)
    → IsValid b
    → add b side price shares ≡ ok (b', changed)
    → IsValid b'
add-IsValid b b' side price shares changed v e =
    let same : after_add b side price shares ≡ b' = cc (add-after_add b side price shares v) in
    rw (← same) (after_add-IsValid b side price shares v)
