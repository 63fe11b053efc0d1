-- ===== src/Market/Agreement.antt =====
-- The books of model/book.py against the orders that rest: what each level of a book holds.
use hft_rtl.Prelude.{
  ◌⊎◌, ℕ, ◌+◌, ◌-◌, ◌≤◌, ◌≡◌, refl, sym, ◌∙◌, Bool, true, false, ◌&&◌, none, some, arith, nat_eq,
  if◌then◌else◌, Text, text_eq, text_eq_iff, text_key, nat_key, Option-cases, Bool-cases, inl, inr,
}
use hft_rtl.Prelude.Dict.{Dict, lookup, insert, erase, lookup-insert}
use hft_rtl.Prelude.Dict.Totals.{IsDistinct, total, total-insert_new, total-insert, total-erase}
use hft_rtl.Book
use hft_rtl.Book.{PriceBook}
use hft_rtl.Book.Add.{after_add}
use hft_rtl.Book.Depth.{
  shares_on, evict_count-after_add, evict_count-reduce, shares_on-after_add, shares_on-reduce,
}
use hft_rtl.Book.Invariant as BookInvariant
use hft_rtl.Book.Invariant.{same_side}
use hft_rtl.Market.{Order, shrink_order}
use hft_rtl.Market.Effect.{reduced, added}

-- An order rests on this side of this symbol at this price.
abbrev pub rests_at : Text → Text → ℕ → Order → Bool
rests_at symbol side price o =
    text_eq o.symbol symbol && (same_side o.side side && nat_eq o.price price)

abbrev pub shares_in : Text → Text → ℕ → Order → ℕ
shares_in symbol side price o = if rests_at symbol side price o then o.shares else 0

-- The shares of all resting orders on this side of this symbol at this price.
unfoldable pub resting : Text → Text → ℕ → Dict ℕ Order → ℕ
resting symbol side price = total (shares_in symbol side price)

-- A book that never lost a level to the depth limit shows exactly what rests.
abbrev pub Agrees : Dict Text PriceBook → Dict ℕ Order → Type 0
Agrees books orders =
    (symbol side : Text) (price : ℕ) (b : PriceBook)
    → lookup symbol books ≡ some b
    → b.evict_count ≡ 0
    → shares_on b side price ≡ resting symbol side price orders

abbrev pub AllValid : Dict Text PriceBook → Type 0
AllValid books =
    (symbol : Text) (b : PriceBook) → lookup symbol books ≡ some b → BookInvariant.IsValid b

-- A book that is found after one was written is that one, or was there before.
written :
    (symbol s : Text) (c c' b' : PriceBook) (books : Dict Text PriceBook)
    → lookup symbol books ≡ some c
    → lookup s (insert symbol c' books) ≡ some b'
    → ((text_eq symbol s ≡ true) × (c' ≡ b') × (lookup s books ≡ some c))
      ⊎ ((text_eq symbol s ≡ false) × (lookup s books ≡ some b'))
written symbol s c c' b' books e h = elim (Bool-cases (text_eq symbol s)) [
  | inl same ↦
      let at : symbol ≡ s = (text_eq_iff symbol s).0 same in
      inl (same, ground (arith, lookup-insert s symbol c' books, text_eq_iff s symbol), rw (← at) e)
  | inr other ↦ inr (
    other,
    ground (arith, lookup-insert s symbol c' books, text_eq_iff s symbol, text_eq_iff symbol s),
  )
]

untracked :
    (symbol s : Text) (b : PriceBook) (books : Dict Text PriceBook)
    → lookup symbol books ≡ none
    → lookup s books ≡ some b
    → text_eq symbol s ≡ false
untracked symbol s b books missing e = elim (Bool-cases (text_eq symbol s)) [
  | inl same ↦ let at : symbol ≡ s = (text_eq_iff symbol s).0 same in cc (missing, e, at)
  | inr other ↦ other
]

-- What a reduction in one book leaves at a level of any book.
reduced_at :
    (symbol side : Text) (price shares : ℕ) (books : Dict Text PriceBook) (s side' : Text) (q : ℕ)
    (b' : PriceBook)
    → AllValid books
    → lookup s (reduced symbol side price shares books) ≡ some b'
    → (b : PriceBook) × (lookup s books ≡ some b)
      × (b'.evict_count ≡ b.evict_count)
      × (shares_on b' side' q ≡ (
          if text_eq symbol s && (same_side side side' && nat_eq price q)
          then shares_on b side' q - shares
          else shares_on b side' q))
unfolding reduced
reduced_at symbol side price shares books s side' q b' v e =
    elim (Option-cases (lookup symbol books)) [
      | inl missing ↦
          let e' : lookup s books ≡ some b' = rw (missing, reduced) at e in
          (b', e', refl, rw (untracked symbol s b' books missing e') refl)
      | inr (c, found) ↦
          let e' : lookup s (insert symbol (Book.reduce c side price shares).0 books) ≡ some b' =
            rw (found, reduced) at e in
          elim (written symbol s c (Book.reduce c side price shares).0 b' books found e') [
            | inl (same, is, there) ↦ (
              c,
              there,
              rw (← is) (evict_count-reduce c side price shares),
              rw (← is, same) (shares_on-reduce c side side' price shares q (v symbol c found)),
            )
            | inr (other, there) ↦ (b', there, refl, rw other refl)
          ]
    ]

added_at :
    (symbol side : Text) (price shares : ℕ) (books : Dict Text PriceBook) (s side' : Text) (q : ℕ)
    (b' : PriceBook)
    → AllValid books
    → lookup s (added symbol side price shares books) ≡ some b'
    → b'.evict_count ≡ 0
    → (b : PriceBook) × (lookup s books ≡ some b)
      × (b.evict_count ≡ 0)
      × (shares_on b' side' q ≡ (
          if text_eq symbol s && (same_side side side' && nat_eq price q)
          then shares_on b side' q + shares
          else shares_on b side' q))
unfolding added
added_at symbol side price shares books s side' q b' v e z =
    elim (Option-cases (lookup symbol books)) [
      | inl missing ↦
          let e' : lookup s books ≡ some b' = rw (missing, added) at e in
          (b', e', z, rw (untracked symbol s b' books missing e') refl)
      | inr (c, found) ↦
          let e' : lookup s (insert symbol (after_add c side price shares) books) ≡ some b' =
            rw (found, added) at e in
          elim (written symbol s c (after_add c side price shares) b' books found e') [
            | inl (same, is, there) ↦
                let kept : (after_add c side price shares).evict_count ≡ 0 = rw is z in
                let before : c.evict_count ≡ 0 =
                  omega (arith, evict_count-after_add c side price shares) in
                (
                  c,
                  there,
                  before,
                  rw (← is, same)
                      (shares_on-after_add c side side' price shares q (v symbol c found)
                        (kept ∙ sym before)),
                )
            | inr (other, there) ↦ (b', there, z, rw other refl)
          ]
    ]

resting-shrink_order :
    (symbol side : Text) (price id amount : ℕ) (o : Order) (orders : Dict ℕ Order)
    → IsDistinct orders
    → lookup id orders ≡ some o
    → amount ≤ o.shares
    → resting symbol side price (shrink_order id o amount orders)
        + (if rests_at symbol side price o then amount else 0)
      ≡ resting symbol side price orders
unfolding resting shrink_order
resting-shrink_order symbol side price id amount o orders d e h =
    let f = shares_in symbol side price in
    let left : Order = record o { shares = o.shares - amount } in
    ground (arith, total-insert f id left o orders e, total-erase f id o orders d e)

-- Shares that leave a level leave the order they belong to.
pub Agrees-shrink_order :
    (books : Dict Text PriceBook) (orders : Dict ℕ Order) (id amount : ℕ) (o : Order)
    → AllValid books
    → IsDistinct orders
    → lookup id orders ≡ some o
    → amount ≤ o.shares
    → Agrees books orders
    → Agrees (reduced o.symbol o.side o.price amount books) (shrink_order id o amount orders)
Agrees-shrink_order books orders id amount o v d e h agrees s side q b' there z =
    let (b, found, count, moved) =
      reduced_at o.symbol o.side o.price amount books s side q b' v there in
    let before = agrees s side q b found (sym count ∙ z) in
    let rest = resting-shrink_order s side q id amount o orders d e h in
    ground (arith, before, moved, rest)

shrink_order_all :
    (id : ℕ) (o : Order) (orders : Dict ℕ Order)
    → shrink_order id o o.shares orders ≡ erase id orders
unfolding shrink_order
shrink_order_all id o orders = ground arith

pub Agrees-erase :
    (books : Dict Text PriceBook) (orders : Dict ℕ Order) (id : ℕ) (o : Order)
    → AllValid books
    → IsDistinct orders
    → lookup id orders ≡ some o
    → Agrees books orders
    → Agrees (reduced o.symbol o.side o.price o.shares books) (erase id orders)
Agrees-erase books orders id o v d e agrees =
    rw (shrink_order_all id o orders) at
      (Agrees-shrink_order books orders id o.shares o v d e (omega arith) agrees)

-- Shares that join a level come with a new order.
pub Agrees-insert :
    (books : Dict Text PriceBook) (orders : Dict ℕ Order) (id : ℕ) (o : Order)
    → AllValid books
    → lookup id orders ≡ none
    → Agrees books orders
    → Agrees (added o.symbol o.side o.price o.shares books) (insert id o orders)
unfolding resting
Agrees-insert books orders id o v e agrees s side q b' there z =
    let (b, found, count, moved) =
      added_at o.symbol o.side o.price o.shares books s side q b' v there z in
    let before = agrees s side q b found count in
    let rest = total-insert_new (shares_in s side q) id o orders e in
    ground (arith, before, moved, rest)
