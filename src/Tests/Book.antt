-- ===== src/Tests/Book.antt =====
-- `PriceBook` of model/book.py on concrete books.
use hft_rtl.Prelude.{ℕ, ◌-◌, ◌≡◌, refl, true, false, [], ◌∷◌, arith, Text, text_eq, take}
use hft_rtl.Prelude.Result.{ok}
use hft_rtl.Book.{
  side_list, Level, PriceBook, is_bid, add_to_level, last_level, insert_index, insert_at, pop_last,
  insert_level, add_new, add, reduce_level, reduce, snapshot, padded,
}
use hft_rtl.Book.Add.{after_add, add-after_add, has_price, full_side}
use hft_rtl.Book.Depth.{add-IsValid, shares_on, shares_on-reduce}
use hft_rtl.Book.Reduce.{after_reduce, reduce-after_reduce}
use hft_rtl.Book.Invariant.{IsValid}

program : Unit {0}
unfolding is_bid text_eq add_to_level last_level insert_index insert_at pop_last insert_level
    add_new add reduce_level reduce snapshot padded
program = tt

abbrev buy : Text
buy = b'B' ∷ []

abbrev sell : Text
sell = b'S' ∷ []

abbrev level : ℕ → ℕ → Level
level price shares = record { price = price; shares = shares }

abbrev book : PriceBook
book = record {
  n_levels = 2;
  bid = level 10 5 ∷ level 9 3 ∷ [];
  ask = level 12 7 ∷ [];
  evict_count = 0;
  reduce_miss_count = 0;
}

book-IsValid : IsValid book
book-IsValid = ground arith

add_best :
    add book buy 11 4
    ≡ ok (record book { bid = level 11 4 ∷ level 10 5 ∷ []; evict_count = 1 }, true)
unfolding program
add_best = refl

add_worst : add book buy 8 4 ≡ ok (record book { evict_count = 1 }, false)
unfolding program
add_worst = refl

add_same : add book buy 9 4 ≡ ok (record book { bid = level 10 5 ∷ level 9 7 ∷ [] }, true)
unfolding program
add_same = refl

add_ask : add book sell 13 4 ≡ ok (record book { ask = level 12 7 ∷ level 13 4 ∷ [] }, true)
unfolding program
add_ask = refl

reduce_all : reduce book buy 10 5 ≡ (record book { bid = level 9 3 ∷ [] }, true)
unfolding program
reduce_all = refl

reduce_miss : reduce book sell 10 5 ≡ (record book { reduce_miss_count = 1 }, false)
unfolding program
reduce_miss = refl

snapshot-book : (snapshot book).ask ≡ level 12 7 ∷ level 0 0 ∷ []
unfolding program
snapshot-book = refl

add-after_add_example :
    add book buy 8 4 ≡ ok (after_add book buy 8 4, has_price 8 (take 2 (full_side book buy 8 4)))
add-after_add_example = add-after_add book buy 8 4 book-IsValid

add-IsValid_example : IsValid (record book { evict_count = 1 })
add-IsValid_example =
    add-IsValid book (record book { evict_count = 1 }) buy 8 4 false book-IsValid add_worst

reduce-after_reduce_example :
    (reduce book buy 10 5 ≡ (after_reduce book buy 10 5, has_price 10 (side_list book buy)))
    × IsValid (after_reduce book buy 10 5)
reduce-after_reduce_example = reduce-after_reduce book buy 10 5 book-IsValid

shares_on-reduce_example : shares_on (reduce book buy 10 2).0 buy 10 ≡ shares_on book buy 10 - 2
unfolding is_bid text_eq
shares_on-reduce_example = shares_on-reduce book buy buy 10 2 10 book-IsValid
