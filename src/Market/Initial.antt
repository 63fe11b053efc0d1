-- ===== src/Market/Initial.antt =====
-- A new `MarketModel` of model/book.py is within its bounds, and no message changes the depth of its
-- books.
use hft_rtl.Prelude.{
  ℕ, ◌+◌, ◌≤◌, ◌<◌, ◌≡◌, refl, inl, inr, some, List, [], ◌∷◌, arith, Text, length, Option-cases,
  text_key, nat_key,
}
use hft_rtl.Prelude.Bytes.{ljust}
use hft_rtl.Prelude.Dict.{Dict, lookup, insert, lookup-insert_cases}
use hft_rtl.Book
use hft_rtl.Book.{PriceBook}
use hft_rtl.Book.Prices.{AllCheap}
use hft_rtl.Itch.Message.{DecodedMsg, Kind}
use hft_rtl.Market.Effect.{
  after_add_msg, after_exec, after_delete, after_replace, after_kind, after_message,
}
use hft_rtl.Market.{MarketModel, books_for, indices_for, init}
use hft_rtl.Market.Bounds.{IsBounded}

books_for-AllCheap :
    (B n : ℕ) (symbols : List Text) (books : Dict Text PriceBook)
    → ((sym : Text) (b : PriceBook) → lookup sym books ≡ some b → AllCheap B b)
    → (sym : Text) (b : PriceBook) → lookup sym (books_for n symbols books) ≡ some b
    → AllCheap B b
unfolding books_for
books_for-AllCheap B n [] books h = h
books_for-AllCheap B n (s ∷ ss) books h =
    books_for-AllCheap B n ss (insert (ljust 8 s) (Book.init n) books) (λ t b l.
      elim (lookup-insert_cases t (ljust 8 s) (Book.init n) b books l) [
        | inl (_, same) ↦ rw (← same) (tt, tt)
        | inr old ↦ h t b old
      ])

indices_for-small :
    (N i : ℕ) (symbols : List Text) (indices : Dict Text ℕ)
    → i + length symbols ≤ N
    → ((sym : Text) (j : ℕ) → lookup sym indices ≡ some j → j < N)
    → (sym : Text) (j : ℕ) → lookup sym (indices_for i symbols indices) ≡ some j
    → j < N
unfolding indices_for
indices_for-small N i [] indices fits h = h
indices_for-small N i (s ∷ ss) indices fits h =
    indices_for-small N (i + 1) ss (insert (ljust 8 s) i indices) (omega arith) (λ t j l.
      elim (lookup-insert_cases t (ljust 8 s) i j indices l) [
        | inl (_, same) ↦ rw (← same) (omega arith)
        | inr old ↦ h t j old
      ])

pub init-IsBounded :
    (B : ℕ) (symbols : List Text) (n : ℕ) → IsBounded B (length symbols) (init symbols n)
unfolding lookup
init-IsBounded B symbols n = record {
  cheap = books_for-AllCheap B n symbols [] (λ s b l. cc);
  small = indices_for-small (length symbols) 0 symbols [] (omega arith) (λ s j l. cc);
}

n_levels-after_kind :
    (m : MarketModel) (msg : DecodedMsg) (k : Kind) → (after_kind k m msg).n_levels ≡ m.n_levels
unfolding after_add_msg after_exec after_delete after_replace
n_levels-after_kind m msg Kind.add = elim (Option-cases (lookup msg.symbol m.books)) [
  | inl e ↦ rw (e, after_add_msg) refl
  | inr (b, e) ↦ rw (e, after_add_msg) refl
]
n_levels-after_kind m msg Kind.exec = elim (Option-cases (lookup msg.order_id m.orders)) [
  | inl e ↦ rw (e, after_exec) refl
  | inr (o, e) ↦ rw (e, after_exec) refl
]
n_levels-after_kind m msg Kind.cancel = elim (Option-cases (lookup msg.order_id m.orders)) [
  | inl e ↦ rw (e, after_exec) refl
  | inr (o, e) ↦ rw (e, after_exec) refl
]
n_levels-after_kind m msg Kind.delete = elim (Option-cases (lookup msg.order_id m.orders)) [
  | inl e ↦ rw (e, after_delete) refl
  | inr (o, e) ↦ rw (e, after_delete) refl
]
n_levels-after_kind m msg Kind.replace = elim (Option-cases (lookup msg.order_id m.orders)) [
  | inl e ↦ rw (e, after_replace) refl
  | inr (o, e) ↦ rw (e, after_replace) refl
]
n_levels-after_kind m msg Kind.system = refl

-- A message leaves the depth of the books alone.
pub n_levels-after_message :
    (m : MarketModel) (msg : DecodedMsg) → (after_message m msg).n_levels ≡ m.n_levels
unfolding after_message
n_levels-after_message m msg = n_levels-after_kind m msg msg.kind
