-- ===== src/Market/Effect.antt =====
-- What a message does to a `MarketModel` of model/book.py with the exceptions and the events gone,
-- and the two ways in which a step writes a book.
use hft_rtl.Prelude.{ℕ, ◌≡◌, Bool, none, some, arith, Text, text_key, nat_key, take}
use hft_rtl.Prelude.Result.{ok}
use hft_rtl.Prelude.Dict.{Dict, lookup, insert, erase, lookup-insert-some}
use hft_rtl.Book
use hft_rtl.Book.{PriceBook}
use hft_rtl.Book.Add.{after_add, add-after_add, has_price, full_side}
use hft_rtl.Book.Depth.{after_add-IsValid, n_levels-after_add, reduce-IsValid, n_levels-reduce}
use hft_rtl.Itch.Message.{DecodedMsg, Kind}
use hft_rtl.Market.{MarketModel, dropped, add_to_book, reduce_in_book, shrink_order}
use hft_rtl.Market.Invariant.{IsValid, with_book-IsValid}

-- The books once a reduction or an add has gone to the book of `sym`.
unfoldable pub reduced : Text → Text → ℕ → ℕ → Dict Text PriceBook → Dict Text PriceBook
reduced sym side price shares books = elim (lookup sym books) [
  | none ↦ books
  | some b ↦ insert sym (Book.reduce b side price shares).0 books
]

unfoldable pub added : Text → Text → ℕ → ℕ → Dict Text PriceBook → Dict Text PriceBook
added sym side price shares books = elim (lookup sym books) [
  | none ↦ books
  | some b ↦ insert sym (after_add b side price shares) books
]

unfoldable pub after_add_msg : MarketModel → DecodedMsg → MarketModel
after_add_msg m msg = elim (lookup msg.symbol m.books) [
  | none ↦ dropped m
  | some _ ↦ record m {
    books = added msg.symbol msg.side msg.price msg.shares m.books;
    orders =
        insert msg.order_id
          (record { symbol = msg.symbol; side = msg.side; price = msg.price; shares = msg.shares })
          m.orders;
  }
]

unfoldable pub after_exec : MarketModel → DecodedMsg → MarketModel
after_exec m msg = elim (lookup msg.order_id m.orders) [
  | none ↦ dropped m
  | some o ↦ record m {
    books = reduced o.symbol o.side o.price msg.shares m.books;
    orders = shrink_order msg.order_id o msg.shares m.orders;
  }
]

unfoldable pub after_delete : MarketModel → DecodedMsg → MarketModel
after_delete m msg = elim (lookup msg.order_id m.orders) [
  | none ↦ dropped m
  | some o ↦ record m {
    books = reduced o.symbol o.side o.price o.shares m.books;
    orders = erase msg.order_id m.orders;
  }
]

unfoldable pub after_replace : MarketModel → DecodedMsg → MarketModel
after_replace m msg = elim (lookup msg.order_id m.orders) [
  | none ↦ dropped m
  | some o ↦ record m {
    books =
        added o.symbol o.side msg.price msg.shares
          (reduced o.symbol o.side o.price o.shares m.books);
    orders =
        insert msg.new_order_id (record o { price = msg.price; shares = msg.shares })
          (erase msg.order_id m.orders);
  }
]

abbrev pub after_kind : Kind → MarketModel → DecodedMsg → MarketModel
after_kind Kind.add m msg = after_add_msg m msg
after_kind Kind.exec m msg = after_exec m msg
after_kind Kind.cancel m msg = after_exec m msg
after_kind Kind.delete m msg = after_delete m msg
after_kind Kind.replace m msg = after_replace m msg
after_kind Kind.system m msg = m

unfoldable pub after_message : MarketModel → DecodedMsg → MarketModel
after_message m msg = after_kind msg.kind m msg

module _ (m : MarketModel) (sym side : Text) (price shares : ℕ) (b : PriceBook) (v : IsValid m)
    (e : lookup sym m.books ≡ some b) where
  pub reduced-IsValid : IsValid (record m { books = reduced sym side price shares m.books })
  unfolding reduced
  reduced-IsValid =
      let b' = (Book.reduce b side price shares).0 in
      let kept =
        with_book-IsValid m v sym b b' e
          (reduce-IsValid b side price shares (v.books_valid sym b e).0)
          (n_levels-reduce b side price shares) in
      rw (e, reduced) kept

  pub added-IsValid : IsValid (record m { books = added sym side price shares m.books })
  unfolding added
  added-IsValid =
      let b' = after_add b side price shares in
      let kept =
        with_book-IsValid m v sym b b' e
          (after_add-IsValid b side price shares (v.books_valid sym b e).0)
          (n_levels-after_add b side price shares) in
      rw (e, added) kept

  pub reduce_in_book-reduced :
      (changed : Bool) × (reduce_in_book m sym side price shares
        ≡ ok (record m { books = reduced sym side price shares m.books }, changed))
  unfolding reduced reduce_in_book
  reduce_in_book-reduced = ((Book.reduce b side price shares).1, ground arith)

  pub add_to_book-added :
      (changed : Bool) × (add_to_book m sym side price shares
        ≡ ok (record m { books = added sym side price shares m.books }, changed))
  unfolding added add_to_book
  add_to_book-added = (
    has_price price (take b.n_levels (full_side b side price shares)),
    ground (arith, add-after_add b side price shares (v.books_valid sym b e).0),
  )

  pub reduced-some :
      (b' : PriceBook) × (lookup sym (reduced sym side price shares m.books) ≡ some b')
  unfolding reduced
  reduced-some =
      let b' = (Book.reduce b side price shares).0 in
      rw (e, reduced) (lookup-insert-some sym sym b' b m.books e)

  pub added-some : (b' : PriceBook) × (lookup sym (added sym side price shares m.books) ≡ some b')
  unfolding added
  added-some =
      let b' = after_add b side price shares in
      rw (e, added) (lookup-insert-some sym sym b' b m.books e)
