-- ===== src/Market/Feed.antt =====
-- Every state that `MarketModel` of model/book.py reaches from `__init__` on a consistent feed.
use hft_rtl.Prelude.{
  ℕ, ◌+◌, ◌≤◌, ◌<◌, ◌≡◌, refl, sym, none, some, List, [], ◌∷◌, arith, Text, text_key, nat_key,
  Option-cases, inl, inr,
}
use hft_rtl.Prelude.Bytes.{ljust}
use hft_rtl.Prelude.Result.{ok}
use hft_rtl.Prelude.Dict.{
  Dict, lookup, insert, erase, lookup-insert_cases, lookup-insert-some, lookup-insert_self,
}
use hft_rtl.Prelude.Dict.Totals.{total}
use hft_rtl.Book
use hft_rtl.Book.{PriceBook}
use hft_rtl.Book.Levels.{shares_at}
use hft_rtl.Book.Depth.{shares_on, reduce-IsValid}
use hft_rtl.Book.Invariant as BookInvariant
use hft_rtl.Itch.Message.{DecodedMsg, Kind}
use hft_rtl.Market.{MarketModel, Event, Order, books_for, indices_for, init, on_message}
use hft_rtl.Market.Invariant.{IsValid}
use hft_rtl.Market.Effect.{
  reduced, after_add_msg, after_exec, after_delete, after_replace, after_kind, after_message,
}
use hft_rtl.Market.Handlers.{on_message-Runs}
use hft_rtl.Market.Agreement.{
  Agrees, AllValid, resting, Agrees-shrink_order, Agrees-erase, Agrees-insert,
}

-- What a venue's feed keeps to: a new order has a new number, and no more shares leave an order
-- than it has.
abbrev pub IsFairKind : Kind → MarketModel → DecodedMsg → Type 0
IsFairKind Kind.add m msg = lookup msg.order_id m.orders ≡ none
IsFairKind Kind.exec m msg =
    (o : Order) → lookup msg.order_id m.orders ≡ some o → msg.shares ≤ o.shares
IsFairKind Kind.cancel m msg =
    (o : Order) → lookup msg.order_id m.orders ≡ some o → msg.shares ≤ o.shares
IsFairKind Kind.delete m msg = Unit
IsFairKind Kind.replace m msg = lookup msg.new_order_id (erase msg.order_id m.orders) ≡ none
IsFairKind Kind.system m msg = Unit

abbrev pub IsFair : MarketModel → DecodedMsg → Type 0
IsFair m msg = IsFairKind msg.kind m msg

-- The states that a consistent feed leads to.
pub data Reach (symbols : List Text) (n_levels : ℕ) : MarketModel → Type 0 where
  start : Reach symbols n_levels (init symbols n_levels)
  next :
      {m m' : MarketModel} {events : List Event} (msg : DecodedMsg)
      → Reach symbols n_levels m
      → IsFair m msg
      → on_message m msg ≡ ok (m', events)
      → Reach symbols n_levels m'

books_for-valid :
    (n : ℕ) (symbols : List Text) (books : Dict Text PriceBook)
    → ((s : Text) (b : PriceBook) → lookup s books ≡ some b → b ≡ Book.init n)
    → (s : Text) (b : PriceBook) → lookup s (books_for n symbols books) ≡ some b
    → b ≡ Book.init n
unfolding books_for
books_for-valid n [] books h s b e = h s b e
books_for-valid n (x ∷ symbols) books h s b e =
    books_for-valid n symbols (insert (ljust 8 x) (Book.init n) books)
      (λ t c l. elim (lookup-insert_cases t (ljust 8 x) (Book.init n) c books l) [
        | inl (_, is) ↦ sym is
        | inr old ↦ h t c old
      ])
      s b e

indices_for-indexed :
    (n i : ℕ) (symbols : List Text) (books : Dict Text PriceBook) (indices : Dict Text ℕ)
    → ((s : Text) (b : PriceBook) → lookup s books ≡ some b → (j : ℕ) × (lookup s indices ≡ some j))
    → (s : Text) (b : PriceBook) → lookup s (books_for n symbols books) ≡ some b
    → (j : ℕ) × (lookup s (indices_for i symbols indices) ≡ some j)
unfolding books_for indices_for
indices_for-indexed n i [] books indices h s b e = h s b e
indices_for-indexed n i (x ∷ symbols) books indices h s b e =
    indices_for-indexed n (i + 1) symbols (insert (ljust 8 x) (Book.init n) books)
      (insert (ljust 8 x) i indices)
      (λ t c l. elim (lookup-insert_cases t (ljust 8 x) (Book.init n) c books l) [
        | inl (at, _) ↦ rw at (i, lookup-insert_self (ljust 8 x) i indices)
        | inr old ↦ let (j, found) = h t c old in lookup-insert-some t (ljust 8 x) i j indices found
      ])
      s b e

-- `__init__` gives a valid model.
pub init-IsValid : (symbols : List Text) (n : ℕ) → 0 < n → IsValid (init symbols n)
unfolding lookup
init-IsValid symbols n h = record {
  books_valid = λ s b e.
      let is : b ≡ Book.init n = books_for-valid n symbols [] (λ t c l. cc) s b e in
      rw is (BookInvariant.init-IsValid n h, refl);
  indexed = λ s b e. indices_for-indexed n 0 symbols [] [] (λ t c l. cc) s b e;
  tracked = λ id o e. cc;
  distinct = tt;
}

AllValid-reduced :
    (symbol side : Text) (price shares : ℕ) (books : Dict Text PriceBook)
    → AllValid books
    → AllValid (reduced symbol side price shares books)
unfolding reduced
AllValid-reduced symbol side price shares books v s b' e =
    elim (Option-cases (lookup symbol books)) [
      | inl missing ↦ v s b' (rw (missing, reduced) at e)
      | inr (c, found) ↦
          let c' = (Book.reduce c side price shares).0 in
          let e' : lookup s (insert symbol c' books) ≡ some b' = rw (found, reduced) at e in
          elim (lookup-insert_cases s symbol c' b' books e') [
            | inl (_, is) ↦ rw (← is) (reduce-IsValid c side price shares (v symbol c found))
            | inr old ↦ v s b' old
          ]
    ]

abbrev pub IsLedger : MarketModel → Type 0
IsLedger m = Agrees m.books m.orders

module _ (m : MarketModel) (msg : DecodedMsg) (v : IsValid m) (agrees : IsLedger m) where
  valid : AllValid m.books
  valid s b e = (v.books_valid s b e).0

  after_add_msg-IsLedger : IsFairKind Kind.add m msg → IsLedger (after_add_msg m msg)
  unfolding after_add_msg
  after_add_msg-IsLedger fair = elim (Option-cases (lookup msg.symbol m.books)) [
    | inl missing ↦ rw (missing, after_add_msg) agrees
    | inr (b, found) ↦
        let o : Order = record {
          symbol = msg.symbol;
          side = msg.side;
          price = msg.price;
          shares = msg.shares;
        } in
        rw (found, after_add_msg) (Agrees-insert m.books m.orders msg.order_id o valid fair agrees)
  ]

  after_exec-IsLedger : IsFairKind Kind.exec m msg → IsLedger (after_exec m msg)
  unfolding after_exec
  after_exec-IsLedger fair = elim (Option-cases (lookup msg.order_id m.orders)) [
    | inl missing ↦ rw (missing, after_exec) agrees
    | inr (o, found) ↦
        rw (found, after_exec)
          (Agrees-shrink_order m.books m.orders msg.order_id msg.shares o valid v.distinct found
            (fair o found) agrees)
  ]

  after_delete-IsLedger : IsLedger (after_delete m msg)
  unfolding after_delete
  after_delete-IsLedger = elim (Option-cases (lookup msg.order_id m.orders)) [
    | inl missing ↦ rw (missing, after_delete) agrees
    | inr (o, found) ↦
        rw (found, after_delete)
          (Agrees-erase m.books m.orders msg.order_id o valid v.distinct found agrees)
  ]

  after_replace-IsLedger : IsFairKind Kind.replace m msg → IsLedger (after_replace m msg)
  unfolding after_replace
  after_replace-IsLedger fair = elim (Option-cases (lookup msg.order_id m.orders)) [
    | inl missing ↦ rw (missing, after_replace) agrees
    | inr (o, found) ↦
        let left = Agrees-erase m.books m.orders msg.order_id o valid v.distinct found agrees in
        rw (found, after_replace)
          (Agrees-insert (reduced o.symbol o.side o.price o.shares m.books)
            (erase msg.order_id m.orders) msg.new_order_id
            (record o { price = msg.price; shares = msg.shares })
            (AllValid-reduced o.symbol o.side o.price o.shares m.books valid) fair left)
  ]

  after_kind-IsLedger : (k : Kind) → IsFairKind k m msg → IsLedger (after_kind k m msg)
  after_kind-IsLedger Kind.add fair = after_add_msg-IsLedger fair
  after_kind-IsLedger Kind.exec fair = after_exec-IsLedger fair
  after_kind-IsLedger Kind.cancel fair = after_exec-IsLedger fair
  after_kind-IsLedger Kind.delete fair = after_delete-IsLedger
  after_kind-IsLedger Kind.replace fair = after_replace-IsLedger fair
  after_kind-IsLedger Kind.system fair = agrees

  after_message-IsLedger : IsFair m msg → IsLedger (after_message m msg)
  unfolding after_message
  after_message-IsLedger fair = after_kind-IsLedger msg.kind fair

init-IsLedger : (symbols : List Text) (n : ℕ) → 0 < n → IsLedger (init symbols n)
unfolding resting total shares_at
init-IsLedger symbols n h s side q b e z =
    let is : b ≡ Book.init n = books_for-valid n symbols [] (λ t c l. unfold lookup in cc) s b e in
    rw is (ground arith)

Reach-IsLedger :
    (symbols : List Text) (n : ℕ) {m : MarketModel}
    → 0 < n
    → Reach symbols n m
    → IsValid m × IsLedger m
Reach-IsLedger symbols n h start = (init-IsValid symbols n h, init-IsLedger symbols n h)
Reach-IsLedger symbols n h (next {m} {m'} msg r fair e) =
    let (v, agrees) = Reach-IsLedger symbols n h r in
    let (v', (events, e', _)) = on_message-Runs m msg v in
    let same : after_message m msg ≡ m' = cc in
    rw (← same) (v', after_message-IsLedger m msg v agrees fair)

-- Let the depth be positive. In every model that a consistent feed leads to, a book that has lost no
-- level to the depth limit shows at every price, on either side, the shares of the resting orders of
-- its symbol, side and price.
pub Reach-shares_on :
    (symbols : List Text) (n : ℕ) (m : MarketModel) (symbol side : Text) (price : ℕ) (b : PriceBook)
    → 0 < n
    → Reach symbols n m
    → lookup symbol m.books ≡ some b
    → b.evict_count ≡ 0
    → shares_on b side price ≡ resting symbol side price m.orders
Reach-shares_on symbols n m symbol side price b h r e z =
    (Reach-IsLedger symbols n h r).1 symbol side price b e z
