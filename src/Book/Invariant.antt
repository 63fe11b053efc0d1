-- ===== src/Book/Invariant.antt =====
-- What every book of model/book.py keeps: both sides sorted best first with no price twice, and no
-- side longer than `n_levels`; and how a side is read after it was written.
use hft_rtl.Prelude.{
  ℕ, ◌≤◌, ◌<◌, ◌≡◌, Bool, true, false, List, arith, if◌then◌else◌, Text, length, Bool-cases, inl,
  inr,
}
use hft_rtl.Book.{Level, PriceBook, is_bid, side_list, with_side, init}
use hft_rtl.Book.Levels.{IsSorted}

pub record IsValid (b : PriceBook) : Type 0 where
  pub positive : 0 < b.n_levels
  pub bids_sorted : IsSorted true b.bid
  pub asks_sorted : IsSorted false b.ask
  pub bids_fit : length b.bid ≤ b.n_levels
  pub asks_fit : length b.ask ≤ b.n_levels

pub init-IsValid : (n : ℕ) → 0 < n → IsValid (init n)
init-IsValid n h = omega arith

pub IsValid-side :
    (b : PriceBook) (side : Text)
    → IsValid b
    → IsSorted (is_bid side) (side_list b side) × (length (side_list b side) ≤ b.n_levels)
IsValid-side b side v = elim (Bool-cases (is_bid side)) [
  | inl e ↦ rw e (v.bids_sorted, v.bids_fit)
  | inr e ↦ rw e (v.asks_sorted, v.asks_fit)
]

pub with_side-IsValid :
    (b : PriceBook) (side : Text) (ls : List Level)
    → IsValid b
    → IsSorted (is_bid side) ls
    → length ls ≤ b.n_levels
    → IsValid (with_side b side ls)
with_side-IsValid b side ls v s f = elim (Bool-cases (is_bid side)) [
  | inl e ↦ rw e (record {
    positive = v.positive;
    bids_sorted = rw e at s;
    asks_sorted = v.asks_sorted;
    bids_fit = f;
    asks_fit = v.asks_fit;
  })
  | inr e ↦ rw e (record {
    positive = v.positive;
    bids_sorted = v.bids_sorted;
    asks_sorted = rw e at s;
    bids_fit = v.bids_fit;
    asks_fit = f;
  })
]

abbrev pub same_side : Text → Text → Bool
same_side side side' = if is_bid side then is_bid side' else (if is_bid side' then false else true)

pub side_list-with_side :
    (b : PriceBook) (side side' : Text) (ls : List Level)
    → side_list (with_side b side ls) side'
      ≡ (if same_side side side' then ls else side_list b side')
side_list-with_side b side side' ls = ground arith

pub with_side_self : (b : PriceBook) (side : Text) → with_side b side (side_list b side) ≡ b
with_side_self b side = elim (Bool-cases (is_bid side)) [ inl e ↦ rw e | inr e ↦ rw e ]
