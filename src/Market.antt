-- ===== src/Market.antt =====
-- `class MarketModel` of model/book.py: a book for each tracked symbol, and the table of resting
-- orders. A method returns the new model beside its events, or raises.
pub mod Invariant
pub mod Effect
pub mod Handlers
pub mod Bounds
pub mod Initial
pub mod Agreement
pub mod Feed
use hft_rtl.Prelude.{
  ℕ, ◌+◌, ◌-◌, Bool, true, false, Option, none, some, List, [], ◌∷◌, ◌++◌, leb, if◌then◌else◌, Text,
  text_key, nat_key,
}
use hft_rtl.Prelude.Bytes.{ljust}
use hft_rtl.Prelude.Result.{Result, ok, ◌>>=◌, or_raise, key_error}
use hft_rtl.Prelude.Dict.{Dict, lookup, insert, erase}
use hft_rtl.Book
use hft_rtl.Book.{Level, PriceBook}
use hft_rtl.Itch.Message.{DecodedMsg, Kind}

-- The value `[symbol, side, price, shares]` of the order table.
pub record Order : Type 0 where
  pub symbol : Text
  pub side : Text
  pub price : ℕ
  pub shares : ℕ

pub record MarketModel : Type 0 where
  pub n_levels : ℕ
  pub books : Dict Text PriceBook
  pub symbol_to_idx : Dict Text ℕ
  pub orders : Dict ℕ Order
  pub drop_count : ℕ

pub record Event : Type 0 where
  pub symbol_idx : ℕ
  pub bid : List Level
  pub ask : List Level

-- The two dict comprehensions of `__init__`; `i` is the counter of `enumerate`.
unfoldable pub books_for : ℕ → List Text → Dict Text PriceBook → Dict Text PriceBook
books_for n_levels [] books = books
books_for n_levels (sym ∷ symbols) books =
    books_for n_levels symbols (insert (ljust 8 sym) (Book.init n_levels) books)

unfoldable pub indices_for : ℕ → List Text → Dict Text ℕ → Dict Text ℕ
indices_for i [] indices = indices
indices_for i (sym ∷ symbols) indices = indices_for (i + 1) symbols (insert (ljust 8 sym) i indices)

abbrev pub init : List Text → ℕ → MarketModel
init symbols n_levels = record {
  n_levels = n_levels;
  books = books_for n_levels symbols [];
  symbol_to_idx = indices_for 0 symbols [];
  orders = [];
  drop_count = 0;
}

unfoldable pub snapshot_event : MarketModel → Text → Result Event
snapshot_event m symbol = do
  book ← or_raise key_error (lookup symbol m.books)
  symbol_idx ← or_raise key_error (lookup symbol m.symbol_to_idx)
  let snap = Book.snapshot book
  ok (record { symbol_idx = symbol_idx; bid = snap.bid; ask = snap.ask })

-- `if changed: events.append(self._snapshot_event(symbol))`
unfoldable pub append_if : Bool → MarketModel → Text → List Event → Result (List Event)
append_if false m symbol events = ok events
append_if true m symbol events = do event ← snapshot_event m symbol; ok (events ++ event ∷ [])

-- `book = self.books[symbol]` and `book.add(…)`, which mutates the book in place.
unfoldable pub add_to_book : MarketModel → Text → Text → ℕ → ℕ → Result (MarketModel × Bool)
add_to_book m symbol side price shares = do
  book ← or_raise key_error (lookup symbol m.books)
  (book', changed) ← Book.add book side price shares
  ok (record m { books = insert symbol book' m.books }, changed)

unfoldable pub reduce_in_book : MarketModel → Text → Text → ℕ → ℕ → Result (MarketModel × Bool)
reduce_in_book m symbol side price shares = do
  book ← or_raise key_error (lookup symbol m.books)
  let (book', changed) = Book.reduce book side price shares
  ok (record m { books = insert symbol book' m.books }, changed)

abbrev pub dropped : MarketModel → MarketModel
dropped m = record m { drop_count = m.drop_count + 1 }

unfoldable pub on_add : MarketModel → DecodedMsg → Result (MarketModel × List Event)
on_add m msg = elim (lookup msg.symbol m.books) [
  | none ↦ ok (dropped m, [])
  | some _ ↦ do
    (m', changed) ← add_to_book m msg.symbol msg.side msg.price msg.shares
    let entry : Order = record {
      symbol = msg.symbol;
      side = msg.side;
      price = msg.price;
      shares = msg.shares;
    }
    let m'' = record m' { orders = insert msg.order_id entry m'.orders }
    events ← append_if changed m'' msg.symbol []
    ok (m'', events)
]

-- `entry[3] -= msg.shares`, and `del` where 0 or less is left.
unfoldable pub shrink_order : ℕ → Order → ℕ → Dict ℕ Order → Dict ℕ Order
shrink_order order_id entry shares orders =
    if leb entry.shares shares
    then erase order_id orders
    else insert order_id (record entry { shares = entry.shares - shares }) orders

-- The branch of `EXEC` and `CANCEL`.
unfoldable pub on_exec : MarketModel → DecodedMsg → Result (MarketModel × List Event)
on_exec m msg = elim (lookup msg.order_id m.orders) [
  | none ↦ ok (dropped m, [])
  | some entry ↦ do
    (m', changed) ← reduce_in_book m entry.symbol entry.side entry.price msg.shares
    let m'' = record m' { orders = shrink_order msg.order_id entry msg.shares m'.orders }
    events ← append_if changed m'' entry.symbol []
    ok (m'', events)
]

unfoldable pub on_delete : MarketModel → DecodedMsg → Result (MarketModel × List Event)
on_delete m msg = elim (lookup msg.order_id m.orders) [
  | none ↦ ok (dropped m, [])
  | some entry ↦ do
    let popped = record m { orders = erase msg.order_id m.orders }
    (m', changed) ← reduce_in_book popped entry.symbol entry.side entry.price entry.shares
    events ← append_if changed m' entry.symbol []
    ok (m', events)
]

unfoldable pub on_replace : MarketModel → DecodedMsg → Result (MarketModel × List Event)
on_replace m msg = elim (lookup msg.order_id m.orders) [
  | none ↦ ok (dropped m, [])
  | some entry ↦ do
    let popped = record m { orders = erase msg.order_id m.orders }
    (m', changed) ← reduce_in_book popped entry.symbol entry.side entry.price entry.shares
    events ← append_if changed m' entry.symbol []
    (m'', added) ← add_to_book m' entry.symbol entry.side msg.price msg.shares
    let entry' : Order = record entry { price = msg.price; shares = msg.shares }
    let m''' = record m'' { orders = insert msg.new_order_id entry' m''.orders }
    events' ← append_if added m''' entry.symbol events
    ok (m''', events')
]

abbrev pub dispatch : Kind → MarketModel → DecodedMsg → Result (MarketModel × List Event)
dispatch Kind.add m msg = on_add m msg
dispatch Kind.exec m msg = on_exec m msg
dispatch Kind.cancel m msg = on_exec m msg
dispatch Kind.delete m msg = on_delete m msg
dispatch Kind.replace m msg = on_replace m msg
dispatch Kind.system m msg = ok (m, [])

unfoldable pub on_message : MarketModel → DecodedMsg → Result (MarketModel × List Event)
on_message m msg = dispatch msg.kind m msg
