-- ===== src/Book/Reduce.antt =====
-- `PriceBook.reduce` against a description that goes over every level of the side.
use hft_rtl.Prelude.{
  ℕ, ◌+◌, ◌-◌, ◌≡◌, refl, Bool, true, false, none, some, List, [], ◌∷◌, arith, ltb, nat_eq,
  if◌then◌else◌, Text, Bool-cases, inl, inr,
}
use hft_rtl.Book.{Level, PriceBook, is_bid, side_list, with_side, reduce_level, reduce}
use hft_rtl.Book.Levels.{AllWorse, IsSorted}
use hft_rtl.Book.Invariant.{IsValid, IsValid-side}
use hft_rtl.Book.Add.{has_price}
use hft_rtl.Book.Depth.{reduce-IsValid}

-- Every level of the price has `shares` less, and is gone if it had no more than that.
unfoldable pub left_of : ℕ → ℕ → List Level → List Level
left_of price shares [] = []
left_of price shares (l ∷ ls) =
    let rest = left_of price shares ls in
    if nat_eq l.price price
    then if ltb shares l.shares
      then record { price = l.price; shares = l.shares - shares } ∷ rest
      else rest
    else l ∷ rest

-- A book without the price only counts the miss.
unfoldable pub after_reduce : PriceBook → Text → ℕ → ℕ → PriceBook
after_reduce b side price shares =
    let levels = side_list b side in
    if has_price price levels
    then with_side b side (left_of price shares levels)
    else record b { reduce_miss_count = b.reduce_miss_count + 1 }

left_of-AllWorse : (d : Bool) (p s : ℕ) (ls : List Level) → AllWorse d p ls → left_of p s ls ≡ ls
unfolding left_of
left_of-AllWorse d p s [] a = refl
left_of-AllWorse true p s (l ∷ ls) a = ground (arith, left_of-AllWorse true p s ls a.1)
left_of-AllWorse false p s (l ∷ ls) a = ground (arith, left_of-AllWorse false p s ls a.1)

reduce_level-left_of :
    (d : Bool) (p s : ℕ) (ls : List Level)
    → IsSorted d ls
    → reduce_level p s ls ≡ (if has_price p ls then some (left_of p s ls) else none)
unfolding reduce_level left_of has_price
reduce_level-left_of d p s [] h = refl
reduce_level-left_of d p s (l ∷ ls) h = elim (Bool-cases (nat_eq l.price p)) [
  | inl e ↦
      let is : l.price ≡ p = ground arith in
      let worse : AllWorse d p ls = rw is at h.0 in ground (arith, left_of-AllWorse d p s ls worse)
  | inr e ↦ ground (arith, reduce_level-left_of d p s ls h.1)
]

-- On a valid book, `reduce` takes its shares from the level of the price, drops the level if it had no
-- more than that, leaves every other level in its place, and answers whether there was a level of the
-- price; if there was none, it only counts the miss. The book stays valid.
pub reduce-after_reduce :
    (b : PriceBook) (side : Text) (price shares : ℕ)
    → IsValid b
    → (reduce b side price shares
        ≡ (after_reduce b side price shares, has_price price (side_list b side)))
      × IsValid (after_reduce b side price shares)
unfolding reduce after_reduce
reduce-after_reduce b side price shares v =
    let (sorted, fit) = IsValid-side b side v in
    let loop = reduce_level-left_of (is_bid side) price shares (side_list b side) sorted in
    let valid = reduce-IsValid b side price shares v in
    elim (Bool-cases (has_price price (side_list b side))) [
      | inl e ↦
          let found = rw e at loop in rw (e, found, reduce) (refl, rw (found, reduce) at valid)
      | inr e ↦
          let missed = rw e at loop in rw (e, missed, reduce) (refl, rw (missed, reduce) at valid)
    ]
