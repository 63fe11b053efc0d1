-- ===== src/Tests/Market.antt =====
-- `MarketModel` of model/book.py on a short feed.
use hft_rtl.Prelude.{ℕ, ◌≡◌, refl, List, [], ◌∷◌, arith, Text, text_eq, text_key, nat_key}
use hft_rtl.Prelude.Bytes.{ljust_with}
use hft_rtl.Prelude.Dict.{lookup, insert, erase}
use hft_rtl.Prelude.Result.{ok}
use hft_rtl.Book
use hft_rtl.Book.{
  Level, PriceBook, is_bid, add_to_level, last_level, insert_index, insert_at, pop_last,
  insert_level, add_new, reduce_level, snapshot, padded,
}
use hft_rtl.Book.Depth.{shares_on}
use hft_rtl.Itch.Message.{DecodedMsg, Kind}
use hft_rtl.Market.{
  MarketModel, Event, books_for, indices_for, init, snapshot_event, append_if, add_to_book,
  reduce_in_book, on_add, shrink_order, on_exec, on_delete, on_replace, on_message,
}
use hft_rtl.Market.Effect.{after_message}
use hft_rtl.Market.Handlers.{Runs, on_message-Runs}
use hft_rtl.Market.Agreement.{resting}
use hft_rtl.Market.Feed.{Reach, start, next, init-IsValid, Reach-shares_on}

program : Unit {0}
unfolding ljust_with lookup insert erase is_bid text_eq add_to_level last_level insert_index
    insert_at pop_last insert_level add_new Book.add reduce_level Book.reduce snapshot padded
    books_for indices_for snapshot_event append_if add_to_book reduce_in_book on_add shrink_order
    on_exec on_delete on_replace on_message
program = tt

abbrev symbols : List Text
symbols = (b'S' ∷ b'P' ∷ b'Y' ∷ []) ∷ []

abbrev spy : Text
spy = b'S' ∷ b'P' ∷ b'Y' ∷ 32 ∷ 32 ∷ 32 ∷ 32 ∷ 32 ∷ []

abbrev buy : Text
buy = b'B' ∷ []

abbrev message : Kind → ℕ → ℕ → ℕ → ℕ → DecodedMsg
message kind order_id new_order_id shares price = record {
  kind = kind;
  order_id = order_id;
  new_order_id = new_order_id;
  side = buy;
  shares = shares;
  price = price;
  symbol = spy;
}

abbrev add_msg : DecodedMsg
add_msg = message Kind.add 1 0 100 50

abbrev exec_msg : DecodedMsg
exec_msg = message Kind.exec 1 0 40 0

abbrev book_with : List Level → PriceBook
book_with bid = record { n_levels = 2; bid = bid; ask = []; evict_count = 0; reduce_miss_count = 0 }

abbrev model_with : ℕ → MarketModel
model_with shares = record {
  n_levels = 2;
  books = (spy, book_with (record { price = 50; shares = shares } ∷ [])) ∷ [];
  symbol_to_idx = (spy, 0) ∷ [];
  orders = (1, record { symbol = spy; side = buy; price = 50; shares = shares }) ∷ [];
  drop_count = 0;
}

abbrev event_with : ℕ → Event
event_with shares = record {
  symbol_idx = 0;
  bid = record { price = 50; shares = shares } ∷ record { price = 0; shares = 0 } ∷ [];
  ask = record { price = 0; shares = 0 } ∷ record { price = 0; shares = 0 } ∷ [];
}

add_step : on_message (init symbols 2) add_msg ≡ ok (model_with 100, event_with 100 ∷ [])
unfolding program
add_step = refl

exec_step : on_message (model_with 100) exec_msg ≡ ok (model_with 60, event_with 60 ∷ [])
unfolding program
exec_step = refl

replace_step :
    (on_message (model_with 100) (message Kind.replace 1 2 30 51))
    ≡ ok (
      record (model_with 100) {
        books = (spy, book_with (record { price = 51; shares = 30 } ∷ [])) ∷ [];
        orders = (2, record { symbol = spy; side = buy; price = 51; shares = 30 }) ∷ [];
      },
      record (event_with 0) {
        bid = record { price = 0; shares = 0 } ∷ record { price = 0; shares = 0 } ∷ [];
      }
          ∷ record (event_with 0) {
            bid = record { price = 51; shares = 30 } ∷ record { price = 0; shares = 0 } ∷ [];
          }
          ∷ [],
    )
unfolding program
replace_step = refl

unknown_order :
    on_message (model_with 100) (message Kind.delete 7 0 0 0)
    ≡ ok (record (model_with 100) { drop_count = 1 }, [])
unfolding program
unknown_order = refl

Reach-added : Reach symbols 2 (model_with 100)
unfolding lookup
Reach-added = next add_msg start refl add_step

reach : Reach symbols 2 (model_with 60)
unfolding lookup
reach = next exec_msg Reach-added (λ o e. ground arith) exec_step

Reach-shares_on_example :
    shares_on (book_with (record { price = 50; shares = 60 } ∷ [])) buy 50
    ≡ resting spy buy 50 (model_with 60).orders
unfolding program
Reach-shares_on_example =
    Reach-shares_on symbols 2 (model_with 60) spy buy 50
      (book_with (record { price = 50; shares = 60 } ∷ [])) (omega arith) reach refl refl

on_message-Runs_example :
    Runs
      (init symbols 2)
      (on_message (init symbols 2) add_msg)
      (after_message (init symbols 2) add_msg)
on_message-Runs_example =
    on_message-Runs (init symbols 2) add_msg (init-IsValid symbols 2 (omega arith))
