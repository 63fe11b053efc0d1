-- ===== src/Market/Invariant.antt =====
-- What every `MarketModel` of model/book.py keeps: valid books, an index for each book, a book for
-- each resting order; and how the parts of a step keep it.
use hft_rtl.Prelude.{
  ℕ, ◌≡◌, ◌∙◌, Bool, true, false, some, List, Text, length, All, All-append_one, text_key, nat_key,
  inl, inr,
}
use hft_rtl.Prelude.Result.{Returns, Returns-bind}
use hft_rtl.Prelude.Dict.{
  lookup, insert, erase, lookup-insert_cases, lookup-insert-some, lookup-erase-some,
}
use hft_rtl.Prelude.Dict.Totals.{IsDistinct, insert-IsDistinct, erase-IsDistinct}
use hft_rtl.Book.{PriceBook}
use hft_rtl.Book.Depth.{length-snapshot}
use hft_rtl.Book.Invariant as BookInvariant
use hft_rtl.Market.{MarketModel, Event, Order, snapshot_event, append_if}

pub record IsValid (m : MarketModel) : Type 0 where
  pub books_valid :
      (sym : Text) (b : PriceBook)
      → lookup sym m.books ≡ some b
      → BookInvariant.IsValid b × (b.n_levels ≡ m.n_levels)
  pub indexed :
      (sym : Text) (b : PriceBook)
      → lookup sym m.books ≡ some b
      → (i : ℕ) × (lookup sym m.symbol_to_idx ≡ some i)
  pub tracked :
      (id : ℕ) (o : Order)
      → lookup id m.orders ≡ some o
      → (b : PriceBook) × (lookup o.symbol m.books ≡ some b)
  pub distinct : IsDistinct m.orders

-- Both sides of an event show exactly `n` levels.
pub record IsFull (n : ℕ) (ev : Event) : Type 0 where
  pub bids : length ev.bid ≡ n
  pub asks : length ev.ask ≡ n

module _ (m : MarketModel) (v : IsValid m) where
  -- Writing a valid book back under a symbol that has one.
  pub with_book-IsValid :
      (sym : Text) (b b' : PriceBook)
      → lookup sym m.books ≡ some b
      → BookInvariant.IsValid b'
      → b'.n_levels ≡ b.n_levels
      → IsValid (record m { books = insert sym b' m.books })
  with_book-IsValid sym b b' e h n = record {
    books_valid = λ s c l. elim (lookup-insert_cases s sym b' c m.books l) [
      | inl (_, same) ↦ rw (← same) (h, n ∙ (v.books_valid sym b e).1)
      | inr old ↦ v.books_valid s c old
    ];
    indexed = λ s c l. elim (lookup-insert_cases s sym b' c m.books l) [
      | inl (same, _) ↦ rw same (v.indexed sym b e)
      | inr old ↦ v.indexed s c old
    ];
    tracked = λ id o l.
        let (c, found) = v.tracked id o l in lookup-insert-some o.symbol sym b' c m.books found;
    distinct = v.distinct;
  }

  pub insert_order-IsValid :
      (id : ℕ) (o : Order) {b : PriceBook}
      → lookup o.symbol m.books ≡ some b
      → IsValid (record m { orders = insert id o m.orders })
  insert_order-IsValid id o {b} e = record {
    books_valid = v.books_valid;
    indexed = v.indexed;
    tracked = λ j p l. elim (lookup-insert_cases j id o p m.orders l) [
      | inl (_, same) ↦ rw (← same) (b, e)
      | inr old ↦ v.tracked j p old
    ];
    distinct = insert-IsDistinct id o m.orders v.distinct;
  }

  pub erase_order-IsValid : (id : ℕ) → IsValid (record m { orders = erase id m.orders })
  erase_order-IsValid id = record {
    books_valid = v.books_valid;
    indexed = v.indexed;
    tracked = λ j p l. v.tracked j p (lookup-erase-some j id p m.orders l);
    distinct = erase-IsDistinct id m.orders v.distinct;
  }

  snapshot_event-Returns :
      (sym : Text) (b : PriceBook)
      → lookup sym m.books ≡ some b
      → Returns (IsFull m.n_levels) (snapshot_event m sym)
  unfolding snapshot_event
  snapshot_event-Returns sym b e =
      let (i, found) = v.indexed sym b e in
      let (ok_book, n) = v.books_valid sym b e in
      let (bids, asks) = length-snapshot b ok_book in
      rw (e, found) (record { bids = bids ∙ n; asks = asks ∙ n })

  pub append_if-Returns :
      (changed : Bool) (sym : Text) (b : PriceBook) (events : List Event)
      → lookup sym m.books ≡ some b
      → All (IsFull m.n_levels) events
      → Returns (All (IsFull m.n_levels)) (append_if changed m sym events)
  unfolding append_if
  append_if-Returns false sym b events e full = full
  append_if-Returns true sym b events e full =
      Returns-bind (IsFull m.n_levels) (All (IsFull m.n_levels)) (snapshot_event m sym) _
        (snapshot_event-Returns sym b e)
        (λ ev f. All-append_one (IsFull m.n_levels) events ev full f)
