-- ===== src/Book/Prices.antt =====
-- The prices in a book of model/book.py are prices that were added.
use hft_rtl.Prelude.{
  ℕ, zero, suc, ◌+◌, ◌-◌, ◌<◌, inl, inr, Bool, Option, none, some, List, [], ◌∷◌, ltb, leb, nat_eq,
  Text, length, Bool-cases, Option-cases, All, All-append, All-replicate,
}
use hft_rtl.Prelude.Result.{IfOk}
use hft_rtl.Book.{
  Level, PriceBook, is_bid, side_list, with_side, is_better, add_to_level, last_level, insert_index,
  insert_at, pop_last, insert_level, add_new, add, reduce_level, reduce, padded, snapshot,
}

module _ (B : ℕ) where
  abbrev pub IsCheap : Level → Type 0
  IsCheap l = l.price < B

  abbrev pub AllCheap : PriceBook → Type 0
  AllCheap b = All IsCheap b.bid × All IsCheap b.ask

  abbrev IfSome : Option (List Level) → Type 0
  IfSome none = Unit
  IfSome (some ls) = All IsCheap ls

  add_to_level-IsCheap :
      (price shares : ℕ) (ls : List Level) → All IsCheap ls → IfSome (add_to_level price shares ls)
  unfolding add_to_level
  add_to_level-IsCheap price shares [] h = tt
  add_to_level-IsCheap price shares (l ∷ ls) (c, h) = elim (Bool-cases (nat_eq l.price price)) [
    | inl e ↦ rw e (c, h)
    | inr e ↦ elim (Option-cases (add_to_level price shares ls)) [
      | inl e' ↦ rw (e, e') tt
      | inr (ks, e') ↦
          let rest : All IsCheap ks = rw e' at (add_to_level-IsCheap price shares ls h) in
          rw (e, e') (c, rest)
    ]
  ]

  reduce_level-IsCheap :
      (price shares : ℕ) (ls : List Level) → All IsCheap ls → IfSome (reduce_level price shares ls)
  unfolding reduce_level
  reduce_level-IsCheap price shares [] h = tt
  reduce_level-IsCheap price shares (l ∷ ls) (c, h) = elim (Bool-cases (nat_eq l.price price)) [
    | inl e ↦ elim (Bool-cases (leb l.shares shares)) [
      | inl e' ↦ rw (e, e') h
      | inr e' ↦ rw (e, e') (c, h)
    ]
    | inr e ↦ elim (Option-cases (reduce_level price shares ls)) [
      | inl e' ↦ rw (e, e') tt
      | inr (ks, e') ↦
          let rest : All IsCheap ks = rw e' at (reduce_level-IsCheap price shares ls h) in
          rw (e, e') (c, rest)
    ]
  ]

  insert_at-IsCheap :
      (i : ℕ) (l : Level) (ls : List Level)
      → IsCheap l
      → All IsCheap ls
      → All IsCheap (insert_at i l ls)
  unfolding insert_at
  insert_at-IsCheap zero l ls c h = (c, h)
  insert_at-IsCheap (suc i) l [] c h = (c, tt)
  insert_at-IsCheap (suc i) l (k ∷ ls) c (d, h) = (d, insert_at-IsCheap i l ls c h)

  pop_last-IsCheap : (ls : List Level) → All IsCheap ls → All IsCheap (pop_last ls)
  unfolding pop_last
  pop_last-IsCheap [] h = tt
  pop_last-IsCheap (l ∷ []) h = tt
  pop_last-IsCheap (l ∷ k ∷ ls) (c, h) = (c, pop_last-IsCheap (k ∷ ls) h)

  side_list-IsCheap : (b : PriceBook) (side : Text) → AllCheap b → All IsCheap (side_list b side)
  side_list-IsCheap b side h = elim (Bool-cases (is_bid side)) [
    | inl e ↦ rw e h.0
    | inr e ↦ rw e h.1
  ]

  with_side-AllCheap :
      (b : PriceBook) (side : Text) (ls : List Level)
      → AllCheap b
      → All IsCheap ls
      → AllCheap (with_side b side ls)
  with_side-AllCheap b side ls h hl = elim (Bool-cases (is_bid side)) [
    | inl e ↦ rw e (hl, h.1)
    | inr e ↦ rw e (h.0, hl)
  ]

  insert_level-AllCheap :
      (b : PriceBook) (side : Text) (price shares : ℕ)
      → price < B
      → AllCheap b
      → AllCheap (insert_level b side price shares)
  unfolding insert_level
  insert_level-AllCheap b side price shares c h =
      let new : Level = record { price = price; shares = shares } in
      let idx = insert_index (is_bid side) price 0 (side_list b side) in
      let longer = insert_at idx new (side_list b side) in
      let all = insert_at-IsCheap idx new (side_list b side) c (side_list-IsCheap b side h) in
      elim (Bool-cases (ltb b.n_levels (length longer))) [
        | inl e ↦ rw e (
            with_side-AllCheap (record b { evict_count = b.evict_count + 1 }) side (pop_last longer)
              h (pop_last-IsCheap longer all))
        | inr e ↦ rw e (with_side-AllCheap b side longer h all)
      ]

  abbrev ChangedCheap : PriceBook × Bool → Type 0
  ChangedCheap r = AllCheap r.0

  add_new-AllCheap :
      (b : PriceBook) (side : Text) (price shares : ℕ)
      → price < B
      → AllCheap b
      → IfOk ChangedCheap (add_new b side price shares)
  unfolding add_new
  add_new-AllCheap b side price shares c h =
      let inserted = insert_level-AllCheap b side price shares c h in
      elim (Bool-cases (leb b.n_levels (length (side_list b side)))) [
        | inr e ↦ rw e inserted
        | inl e ↦ rw e (elim (Option-cases (last_level (side_list b side))) [
          | inl e' ↦ rw e' tt
          | inr (worst, e') ↦ rw e' (elim (Bool-cases (is_better (is_bid side) worst.price price)) [
            | inl e3 ↦ rw e3 h
            | inr e3 ↦ rw e3 inserted
          ])
        ])
      ]

  pub add-AllCheap :
      (b : PriceBook) (side : Text) (price shares : ℕ)
      → price < B
      → AllCheap b
      → IfOk ChangedCheap (add b side price shares)
  unfolding add
  add-AllCheap b side price shares c h =
      elim (Option-cases (add_to_level price shares (side_list b side))) [
        | inl e ↦ rw (e, add) (add_new-AllCheap b side price shares c h)
        | inr (ls, e) ↦
            let all : All IsCheap ls =
              rw e at (
                add_to_level-IsCheap price shares (side_list b side)
                  (side_list-IsCheap b side h)) in
            rw (e, add) (with_side-AllCheap b side ls h all)
      ]

  pub reduce-AllCheap :
      (b : PriceBook) (side : Text) (price shares : ℕ)
      → AllCheap b
      → AllCheap (reduce b side price shares).0
  unfolding reduce
  reduce-AllCheap b side price shares h =
      elim (Option-cases (reduce_level price shares (side_list b side))) [
        | inl e ↦ rw (e, reduce) h
        | inr (ls, e) ↦
            let all : All IsCheap ls =
              rw e at (
                reduce_level-IsCheap price shares (side_list b side)
                  (side_list-IsCheap b side h)) in
            rw (e, reduce) (with_side-AllCheap b side ls h all)
      ]

  padded-IsCheap : (n : ℕ) (ls : List Level) → 0 < B → All IsCheap ls → All IsCheap (padded n ls)
  unfolding padded
  padded-IsCheap n ls some_ h =
      All-append IsCheap ls _ h (All-replicate IsCheap (n - length ls) _ some_)

  pub snapshot-IsCheap :
      (b : PriceBook)
      → 0 < B
      → AllCheap b
      → All IsCheap (snapshot b).bid × All IsCheap (snapshot b).ask
  unfolding snapshot
  snapshot-IsCheap b some_ h =
      (padded-IsCheap b.n_levels b.bid some_ h.0, padded-IsCheap b.n_levels b.ask some_ h.1)
