-- ===== src/Market/Handlers.antt =====
-- The handlers of `MarketModel.on_message` of model/book.py on a valid model.
use hft_rtl.Prelude.{
  ℕ, ◌-◌, ◌≡◌, refl, some, List, [], arith, All, text_key, nat_key, leb, Option-cases, Bool-cases,
  inl, inr,
}
use hft_rtl.Prelude.Result.{Result, ok, Returns-eq}
use hft_rtl.Prelude.Dict.{lookup, insert, erase}
use hft_rtl.Book.{PriceBook}
use hft_rtl.Itch.Message.{DecodedMsg, Kind}
use hft_rtl.Market.{
  MarketModel, Event, Order, dropped, append_if, shrink_order, on_add, on_exec, on_delete,
  on_replace, on_message, dispatch,
}
use hft_rtl.Market.Invariant.{
  IsValid, IsFull, insert_order-IsValid, erase_order-IsValid, append_if-Returns,
}
use hft_rtl.Market.Effect.{
  reduced, added, after_add_msg, after_exec, after_delete, after_replace, after_kind, after_message,
  reduced-IsValid, added-IsValid, reduce_in_book-reduced, add_to_book-added, reduced-some,
  added-some,
}

-- A handler's result: the new model, which is valid, and events that show every level.
abbrev pub Runs : MarketModel → Result (MarketModel × List Event) → MarketModel → Type 0
Runs m r m' =
    IsValid m' × ((events : List Event) × (r ≡ ok (m', events)) × All (IsFull m.n_levels) events)

dropped-IsValid : (m : MarketModel) → IsValid m → IsValid (dropped m)
dropped-IsValid m v = record {
  books_valid = v.books_valid;
  indexed = v.indexed;
  tracked = v.tracked;
  distinct = v.distinct;
}

shrink_order-IsValid :
    (m : MarketModel) (id shares : ℕ) (o : Order) (b : PriceBook)
    → IsValid m
    → lookup o.symbol m.books ≡ some b
    → IsValid (record m { orders = shrink_order id o shares m.orders })
unfolding shrink_order
shrink_order-IsValid m id shares o b v e = elim (Bool-cases (leb o.shares shares)) [
  | inl gone ↦ rw (gone, shrink_order) (erase_order-IsValid m v id)
  | inr left ↦
      rw (left, shrink_order)
        (insert_order-IsValid m v id (record o { shares = o.shares - shares }) e)
]

on_exec-Runs :
    (m : MarketModel) (msg : DecodedMsg) → IsValid m → Runs m (on_exec m msg) (after_exec m msg)
unfolding on_exec after_exec
on_exec-Runs m msg v = elim (Option-cases (lookup msg.order_id m.orders)) [
  | inl missing ↦ rw (missing, on_exec, after_exec) (dropped-IsValid m v, ([], refl, tt))
  | inr (o, found) ↦
      let (b, tracked) = v.tracked msg.order_id o found in
      let m₁ = record m { orders = shrink_order msg.order_id o msg.shares m.orders } in
      let v₁ = shrink_order-IsValid m msg.order_id msg.shares o b v tracked in
      let v₂ = reduced-IsValid m₁ o.symbol o.side o.price msg.shares b v₁ tracked in
      let (b', there) = reduced-some m o.symbol o.side o.price msg.shares b v tracked in
      let m₂ = record m₁ { books = reduced o.symbol o.side o.price msg.shares m.books } in
      let (changed, step) =
        reduce_in_book-reduced m o.symbol o.side o.price msg.shares b v tracked in
      let (events, sent, full) =
        Returns-eq (All (IsFull m.n_levels)) (append_if changed m₂ o.symbol [])
          (append_if-Returns m₂ v₂ changed o.symbol b' [] there tt) in
      rw (found, on_exec, after_exec) (v₂, (events, ground (arith, step, sent), full))
]

on_delete-Runs :
    (m : MarketModel) (msg : DecodedMsg) → IsValid m → Runs m (on_delete m msg) (after_delete m msg)
unfolding on_delete after_delete
on_delete-Runs m msg v = elim (Option-cases (lookup msg.order_id m.orders)) [
  | inl missing ↦ rw (missing, on_delete, after_delete) (dropped-IsValid m v, ([], refl, tt))
  | inr (o, found) ↦
      let (b, tracked) = v.tracked msg.order_id o found in
      let m₁ = record m { orders = erase msg.order_id m.orders } in
      let v₁ = erase_order-IsValid m v msg.order_id in
      let v₂ = reduced-IsValid m₁ o.symbol o.side o.price o.shares b v₁ tracked in
      let (b', there) = reduced-some m₁ o.symbol o.side o.price o.shares b v₁ tracked in
      let m₂ = record m₁ { books = reduced o.symbol o.side o.price o.shares m.books } in
      let (changed, step) =
        reduce_in_book-reduced m₁ o.symbol o.side o.price o.shares b v₁ tracked in
      let (events, sent, full) =
        Returns-eq (All (IsFull m.n_levels)) (append_if changed m₂ o.symbol [])
          (append_if-Returns m₂ v₂ changed o.symbol b' [] there tt) in
      rw (found, on_delete, after_delete) (v₂, (events, ground (arith, step, sent), full))
]

on_add-Runs :
    (m : MarketModel) (msg : DecodedMsg) → IsValid m → Runs m (on_add m msg) (after_add_msg m msg)
unfolding on_add after_add_msg
on_add-Runs m msg v = elim (Option-cases (lookup msg.symbol m.books)) [
  | inl missing ↦ rw (missing, on_add, after_add_msg) (dropped-IsValid m v, ([], refl, tt))
  | inr (b, tracked) ↦
      let o : Order = record {
        symbol = msg.symbol;
        side = msg.side;
        price = msg.price;
        shares = msg.shares;
      } in
      let m₁ = record m { orders = insert msg.order_id o m.orders } in
      let v₁ = insert_order-IsValid m v msg.order_id o tracked in
      let v₂ = added-IsValid m₁ o.symbol o.side o.price o.shares b v₁ tracked in
      let (b', there) = added-some m o.symbol o.side o.price o.shares b v tracked in
      let m₂ = record m₁ { books = added o.symbol o.side o.price o.shares m.books } in
      let (changed, step) = add_to_book-added m o.symbol o.side o.price o.shares b v tracked in
      let (events, sent, full) =
        Returns-eq (All (IsFull m.n_levels)) (append_if changed m₂ o.symbol [])
          (append_if-Returns m₂ v₂ changed o.symbol b' [] there tt) in
      rw (tracked, on_add, after_add_msg) (v₂, (events, ground (arith, step, sent), full))
]

on_replace-Runs :
    (m : MarketModel) (msg : DecodedMsg)
    → IsValid m
    → Runs m (on_replace m msg) (after_replace m msg)
unfolding on_replace after_replace
on_replace-Runs m msg v = elim (Option-cases (lookup msg.order_id m.orders)) [
  | inl missing ↦ rw (missing, on_replace, after_replace) (dropped-IsValid m v, ([], refl, tt))
  | inr (o, found) ↦
      let (b, tracked) = v.tracked msg.order_id o found in
      let m₁ = record m { orders = erase msg.order_id m.orders } in
      let v₁ = erase_order-IsValid m v msg.order_id in
      let v₂ = reduced-IsValid m₁ o.symbol o.side o.price o.shares b v₁ tracked in
      let (b₂, there₂) = reduced-some m₁ o.symbol o.side o.price o.shares b v₁ tracked in
      let m₂ = record m₁ { books = reduced o.symbol o.side o.price o.shares m.books } in
      let (changed, step) =
        reduce_in_book-reduced m₁ o.symbol o.side o.price o.shares b v₁ tracked in
      let (events, sent, full) =
        Returns-eq (All (IsFull m.n_levels)) (append_if changed m₂ o.symbol [])
          (append_if-Returns m₂ v₂ changed o.symbol b₂ [] there₂ tt) in
      let o' : Order = record o { price = msg.price; shares = msg.shares } in
      let m₃ = record m₂ { orders = insert msg.new_order_id o' m₁.orders } in
      let v₃ = insert_order-IsValid m₂ v₂ msg.new_order_id o' there₂ in
      let v₄ = added-IsValid m₃ o.symbol o.side msg.price msg.shares b₂ v₃ there₂ in
      let (b₄, there₄) = added-some m₂ o.symbol o.side msg.price msg.shares b₂ v₂ there₂ in
      let m₄ = record m₃ { books = added o.symbol o.side msg.price msg.shares m₂.books } in
      let (added_level, step') =
        add_to_book-added m₂ o.symbol o.side msg.price msg.shares b₂ v₂ there₂ in
      let (events', sent', full') =
        Returns-eq (All (IsFull m.n_levels)) (append_if added_level m₄ o.symbol events)
          (append_if-Returns m₄ v₄ added_level o.symbol b₄ events there₄ full) in
      rw (found, on_replace, after_replace)
        (v₄, (events', ground (arith, step, sent, step', sent'), full'))
]

after_kind-Runs :
    (k : Kind) (m : MarketModel) (msg : DecodedMsg)
    → IsValid m
    → Runs m (dispatch k m msg) (after_kind k m msg)
after_kind-Runs Kind.add m msg v = on_add-Runs m msg v
after_kind-Runs Kind.exec m msg v = on_exec-Runs m msg v
after_kind-Runs Kind.cancel m msg v = on_exec-Runs m msg v
after_kind-Runs Kind.delete m msg v = on_delete-Runs m msg v
after_kind-Runs Kind.replace m msg v = on_replace-Runs m msg v
after_kind-Runs Kind.system m msg v = (v, ([], refl, tt))

-- On a valid model no message raises. The new model is `after_message`, it is valid, and each event
-- shows exactly `n_levels` levels on both sides.
pub on_message-Runs :
    (m : MarketModel) (msg : DecodedMsg)
    → IsValid m
    → Runs m (on_message m msg) (after_message m msg)
unfolding on_message after_message
on_message-Runs m msg v = after_kind-Runs msg.kind m msg v
