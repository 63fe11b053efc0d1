-- ===== src/Market/Bounds.antt =====
-- Prices and symbol indices in a `MarketModel` of model/book.py and in its events stay within bounds,
-- and a message sends at most two events.
use hft_rtl.Prelude.{
  ℕ, ◌+◌, ◌≤◌, ◌<◌, ◌≡◌, inl, inr, Bool, true, false, some, List, [], ◌∷◌, arith, Text, length,
  length-append, All, All-append_one, Option-cases, text_key, nat_key,
}
use hft_rtl.Prelude.Result.{ok, ◌>>=◌, IfOk, IfOk-bind}
use hft_rtl.Prelude.Dict.{Dict, lookup, insert, erase, lookup-insert_cases}
use hft_rtl.Book
use hft_rtl.Book.{PriceBook}
use hft_rtl.Book.Prices.{IsCheap, AllCheap, add-AllCheap, reduce-AllCheap, snapshot-IsCheap}
use hft_rtl.Itch.Message.{DecodedMsg, Kind}
use hft_rtl.Market.{
  MarketModel, Event, Order, snapshot_event, append_if, add_to_book, reduce_in_book, on_add,
  on_exec, on_delete, on_replace, dispatch, on_message,
}

-- All prices are below `B`, and all indices below `N`.
pub record IsBounded (B N : ℕ) (m : MarketModel) : Type 0 where
  pub cheap : (sym : Text) (b : PriceBook) → lookup sym m.books ≡ some b → AllCheap B b
  pub small : (sym : Text) (i : ℕ) → lookup sym m.symbol_to_idx ≡ some i → i < N

pub record IsBoundedEvent (B N : ℕ) (ev : Event) : Type 0 where
  pub bids : All (IsCheap B) ev.bid
  pub asks : All (IsCheap B) ev.ask
  pub index : ev.symbol_idx < N

module _ (B N : ℕ) (some_ : 0 < B) where
  snapshot_event-Bounded :
      (m : MarketModel) (sym : Text)
      → IsBounded B N m
      → IfOk (IsBoundedEvent B N) (snapshot_event m sym)
  unfolding snapshot_event
  snapshot_event-Bounded m sym h = elim (Option-cases (lookup sym m.books)) [
    | inl e ↦ rw e tt
    | inr (b, e) ↦ elim (Option-cases (lookup sym m.symbol_to_idx)) [
      | inl e' ↦ rw (e, e') tt
      | inr (i, e') ↦
          let (bids, asks) = snapshot-IsCheap B b some_ (h.cheap sym b e) in
          rw (e, e') (record { bids = bids; asks = asks; index = h.small sym i e' })
    ]
  ]

  -- One event more at most.
  abbrev Grows : ℕ → List Event → Type 0
  Grows k events = All (IsBoundedEvent B N) events × (length events ≤ k)

  append_if-Grows :
      (k : ℕ) (changed : Bool) (m : MarketModel) (sym : Text) (events : List Event)
      → IsBounded B N m
      → Grows k events
      → IfOk (Grows (k + 1)) (append_if changed m sym events)
  unfolding append_if
  append_if-Grows k false m sym events h (all, few) = (all, omega arith)
  append_if-Grows k true m sym events h (all, few) =
      IfOk-bind (IsBoundedEvent B N) (Grows (k + 1)) (snapshot_event m sym) _
        (snapshot_event-Bounded m sym h)
        (λ ev b. (
          All-append_one (IsBoundedEvent B N) events ev all b,
          omega (arith, length-append events (ev ∷ [])),
        ))

  with_book-IsBounded :
      (m : MarketModel) (sym : Text) (b : PriceBook)
      → IsBounded B N m
      → AllCheap B b
      → IsBounded B N (record m { books = insert sym b m.books })
  with_book-IsBounded m sym b h c = record {
    cheap = λ s b' l. elim (lookup-insert_cases s sym b b' m.books l) [
      | inl (_, same) ↦ rw (← same) c
      | inr old ↦ h.cheap s b' old
    ];
    small = h.small;
  }

  abbrev ChangedBounded : MarketModel × Bool → Type 0
  ChangedBounded r = IsBounded B N r.0

  add_to_book-Bounded :
      (m : MarketModel) (sym side : Text) (price shares : ℕ)
      → price < B
      → IsBounded B N m
      → IfOk ChangedBounded (add_to_book m sym side price shares)
  unfolding add_to_book
  add_to_book-Bounded m sym side price shares c h = elim (Option-cases (lookup sym m.books)) [
    | inl e ↦ rw e tt
    | inr (b, e) ↦ rw e (
        IfOk-bind (λ (r : PriceBook × Bool). AllCheap B r.0) ChangedBounded
          (Book.add b side price shares) _ (add-AllCheap B b side price shares c (h.cheap sym b e))
          (λ r all. with_book-IsBounded m sym r.0 h all))
  ]

  reduce_in_book-Bounded :
      (m : MarketModel) (sym side : Text) (price shares : ℕ)
      → IsBounded B N m
      → IfOk ChangedBounded (reduce_in_book m sym side price shares)
  unfolding reduce_in_book
  reduce_in_book-Bounded m sym side price shares h = elim (Option-cases (lookup sym m.books)) [
    | inl e ↦ rw e tt
    | inr (b, e) ↦ rw e (
        with_book-IsBounded m sym (Book.reduce b side price shares).0 h
          (reduce-AllCheap B b side price shares (h.cheap sym b e)))
  ]

  -- Orders do not matter.
  with_orders-IsBounded :
      (m : MarketModel) (orders : Dict ℕ Order)
      → IsBounded B N m
      → IsBounded B N (record m { orders = orders })
  with_orders-IsBounded m orders h = record { cheap = h.cheap; small = h.small }

  abbrev pub IsSent : MarketModel × List Event → Type 0
  IsSent r = IsBounded B N r.0 × Grows 2 r.1

  one_event :
      (m : MarketModel) (changed : Bool) (sym : Text)
      → IsBounded B N m
      → IfOk IsSent (append_if changed m sym [] >>= λ events. ok (m, events))
  one_event m changed sym h =
      IfOk-bind (Grows 1) IsSent (append_if changed m sym []) _
        (append_if-Grows 0 changed m sym [] h (tt, omega arith))
        (λ events (all, few). (h, (all, omega arith)))

  dropped-IsSent :
      (m : MarketModel) → IsBounded B N m → IsSent (record m { drop_count = m.drop_count + 1 }, [])
  dropped-IsSent m h = (record { cheap = h.cheap; small = h.small }, (tt, omega arith))

  module _ (m : MarketModel) (msg : DecodedMsg) (c : msg.price < B) (h : IsBounded B N m) where
    on_add-IsSent : IfOk IsSent (on_add m msg)
    unfolding on_add
    on_add-IsSent = elim (Option-cases (lookup msg.symbol m.books)) [
      | inl e ↦ rw (e, on_add) (dropped-IsSent m h)
      | inr (b, e) ↦
          rw (e, on_add)
            (IfOk-bind ChangedBounded IsSent
              (add_to_book m msg.symbol msg.side msg.price msg.shares) _
              (add_to_book-Bounded m msg.symbol msg.side msg.price msg.shares c h)
              (λ r h'. one_event _ r.1 msg.symbol (with_orders-IsBounded r.0 _ h')))
    ]

    on_exec-IsSent : IfOk IsSent (on_exec m msg)
    unfolding on_exec
    on_exec-IsSent = elim (Option-cases (lookup msg.order_id m.orders)) [
      | inl e ↦ rw (e, on_exec) (dropped-IsSent m h)
      | inr (o, e) ↦
          rw (e, on_exec)
            (IfOk-bind ChangedBounded IsSent (reduce_in_book m o.symbol o.side o.price msg.shares) _
              (reduce_in_book-Bounded m o.symbol o.side o.price msg.shares h)
              (λ r h'. one_event _ r.1 o.symbol (with_orders-IsBounded r.0 _ h')))
    ]

    on_delete-IsSent : IfOk IsSent (on_delete m msg)
    unfolding on_delete
    on_delete-IsSent = elim (Option-cases (lookup msg.order_id m.orders)) [
      | inl e ↦ rw (e, on_delete) (dropped-IsSent m h)
      | inr (o, e) ↦
          let popped = record m { orders = erase msg.order_id m.orders } in
          rw (e, on_delete)
            (IfOk-bind ChangedBounded IsSent
              (reduce_in_book popped o.symbol o.side o.price o.shares) _
              (reduce_in_book-Bounded popped o.symbol o.side o.price o.shares
                (with_orders-IsBounded m _ h))
              (λ r h'. one_event r.0 r.1 o.symbol h'))
    ]

    on_replace-IsSent : IfOk IsSent (on_replace m msg)
    unfolding on_replace
    on_replace-IsSent = elim (Option-cases (lookup msg.order_id m.orders)) [
      | inl e ↦ rw (e, on_replace) (dropped-IsSent m h)
      | inr (o, e) ↦
          let popped = record m { orders = erase msg.order_id m.orders } in
          rw (e, on_replace)
            (IfOk-bind ChangedBounded IsSent
              (reduce_in_book popped o.symbol o.side o.price o.shares) _
              (reduce_in_book-Bounded popped o.symbol o.side o.price o.shares
                (with_orders-IsBounded m _ h))
              (λ r h'.
                IfOk-bind (Grows 1) IsSent (append_if r.1 r.0 o.symbol []) _
                  (append_if-Grows 0 r.1 r.0 o.symbol [] h' (tt, omega arith))
                  (λ events sent.
                    IfOk-bind ChangedBounded IsSent
                      (add_to_book r.0 o.symbol o.side msg.price msg.shares) _
                      (add_to_book-Bounded r.0 o.symbol o.side msg.price msg.shares c h')
                      (λ r' h''.
                        let last = with_orders-IsBounded r'.0 _ h'' in
                        IfOk-bind (Grows 2) IsSent (append_if r'.1 _ o.symbol events) _
                          (append_if-Grows 1 r'.1 _ o.symbol events last sent)
                          (λ events' sent'. (last, sent'))))))
    ]

    dispatch-IsSent : (k : Kind) → IfOk IsSent (dispatch k m msg)
    dispatch-IsSent Kind.add = on_add-IsSent
    dispatch-IsSent Kind.exec = on_exec-IsSent
    dispatch-IsSent Kind.cancel = on_exec-IsSent
    dispatch-IsSent Kind.delete = on_delete-IsSent
    dispatch-IsSent Kind.replace = on_replace-IsSent
    dispatch-IsSent Kind.system = (h, (tt, omega arith))

    pub on_message-IsSent : IfOk IsSent (on_message m msg)
    unfolding on_message
    on_message-IsSent = dispatch-IsSent msg.kind
