-- ===== src/Book/Add.antt =====
-- `PriceBook.add` against a book of unlimited depth: the side becomes the first `n_levels` levels
-- of what unlimited depth would hold.
use native.Mathlib.Decide.{dec_lt}
use hft_rtl.Prelude.{
  ℕ, ◌+◌, ◌≤◌, ◌<◌, ◌≡◌, refl, Bool, true, false, none, some, List, [], ◌∷◌, arith, ltb, nat_eq,
  if◌then◌else◌, Text, length, take, take_of_length-le, take-append_exact, Option-cases, Bool-cases,
  inl, inr,
}
use hft_rtl.Prelude.Result.{ok}
use hft_rtl.Book.{
  Level, PriceBook, is_bid, side_list, with_side, is_better, add_to_level, last_level, insert_level,
  add_new, add,
}
use hft_rtl.Book.Levels.{
  full_add, add_to_level-full_add, insert_at-full_add, length-full_add, pop_last-take,
  full_add_worst, last_level_cases,
}
use hft_rtl.Book.Invariant.{IsValid, IsValid-side, with_side_self}

-- A level of this price is in the list.
unfoldable pub has_price : ℕ → List Level → Bool
has_price p [] = false
has_price p (l ∷ ls) = if nat_eq l.price p then true else has_price p ls

-- The side of unlimited depth after the add.
abbrev pub full_side : PriceBook → Text → ℕ → ℕ → List Level
full_side b side price shares = full_add (is_bid side) price shares (side_list b side)

unfoldable pub after_add : PriceBook → Text → ℕ → ℕ → PriceBook
after_add b side price shares =
    let full = full_side b side price shares in
    with_side
      (record b {
        evict_count = if ltb b.n_levels (length full) then b.evict_count + 1 else b.evict_count;
      })
      side (take b.n_levels full)

has_price-full_add : (d : Bool) (p s : ℕ) (ls : List Level) → has_price p (full_add d p s ls) ≡ true
unfolding has_price full_add
has_price-full_add d p s [] = ground arith
has_price-full_add d p s (l ∷ ls) = ground (arith, has_price-full_add d p s ls)

has_price-none : (p s : ℕ) (ls : List Level) → add_to_level p s ls ≡ none → has_price p ls ≡ false
unfolding has_price add_to_level
has_price-none p s [] e = refl
has_price-none p s (l ∷ ls) e = ground (arith, has_price-none p s ls)

-- A new price that is better than the worst level of a full list is among the levels that stay.
has_price-take :
    (d : Bool) (p s : ℕ) (ls : List Level) {worst : Level}
    → add_to_level p s ls ≡ none
    → last_level ls ≡ some worst
    → is_better d worst.price p ≡ false
    → has_price p (take (length ls) (full_add d p s ls)) ≡ true
unfolding has_price add_to_level last_level full_add
has_price-take d p s [] e w h = cc
has_price-take true p s (l ∷ []) e w h = ground arith
has_price-take false p s (l ∷ []) e w h = ground arith
has_price-take true p s (l ∷ k ∷ ls) e w h =
    ground (arith, has_price-take true p s (k ∷ ls) (ground arith) w h)
has_price-take false p s (l ∷ k ∷ ls) e w h =
    ground (arith, has_price-take false p s (k ∷ ls) (ground arith) w h)

module _ (b : PriceBook) (side : Text) (price shares : ℕ) where
  pub after_add_fits :
      length (full_side b side price shares) ≤ b.n_levels
      → after_add b side price shares ≡ with_side b side (full_side b side price shares)
  unfolding after_add
  after_add_fits fits =
      let short : ltb b.n_levels (length (full_side b side price shares)) ≡ false = ground arith in
      rw (short, take_of_length-le b.n_levels _ fits)

  after_add_over :
      b.n_levels < length (full_side b side price shares)
      → after_add b side price shares
        ≡ with_side
            (record b { evict_count = b.evict_count + 1 })
            side
            (take b.n_levels (full_side b side price shares))
  unfolding after_add
  after_add_over over =
      let long : ltb b.n_levels (length (full_side b side price shares)) ≡ true = ground arith in
      rw long

  abbrev Adds : Type 0
  Adds =
      add b side price shares
      ≡ ok (
        after_add b side price shares,
        has_price price (take b.n_levels (full_side b side price shares)),
      )

  module _ (v : IsValid b) where
    add_found : {ks : List Level} → add_to_level price shares (side_list b side) ≡ some ks → Adds
    unfolding add
    add_found {ks} e =
        let (sorted, fit) = IsValid-side b side v in
        let (same, len) =
          add_to_level-full_add (is_bid side) price shares (side_list b side) sorted e in
        let fits : length (full_side b side price shares) ≤ b.n_levels =
          rw (← same) (omega arith) in
        ground (
          arith,
          after_add_fits fits,
          take_of_length-le b.n_levels _ fits,
          has_price-full_add (is_bid side) price shares (side_list b side),
          same,
        )

    module _ (e : add_to_level price shares (side_list b side) ≡ none) where
      insert_level-after_add : insert_level b side price shares ≡ after_add b side price shares
      unfolding insert_level
      insert_level-after_add =
          let (sorted, fit) = IsValid-side b side v in
          let same = insert_at-full_add (is_bid side) price shares (side_list b side) e in
          let grown = length-full_add (is_bid side) price shares (side_list b side) e in
          ground (
            arith,
            same,
            grown,
            after_add_fits,
            after_add_over,
            pop_last-take b.n_levels (full_side b side price shares),
          )

      -- A price that is worse than every level of a full side changes nothing.
      add_worse :
          {worst : Level}
          → b.n_levels ≤ length (side_list b side)
          → last_level (side_list b side) ≡ some worst
          → is_better (is_bid side) worst.price price ≡ true
          → Adds
      unfolding add add_new
      add_worse is_full last worse =
          let (sorted, fit) = IsValid-side b side v in
          let same =
            full_add_worst (is_bid side) price shares (side_list b side) sorted last worse in
          let kept : take b.n_levels (full_side b side price shares) ≡ side_list b side =
            rw same (take-append_exact b.n_levels (side_list b side) _ (omega arith)) in
          ground (
            arith,
            length-full_add (is_bid side) price shares (side_list b side) e,
            kept,
            after_add_over,
            with_side_self b side,
            has_price-none price shares (side_list b side) e,
          )

      -- Any other new price on a full side pushes the worst level out.
      add_better :
          {worst : Level}
          → b.n_levels ≤ length (side_list b side)
          → last_level (side_list b side) ≡ some worst
          → is_better (is_bid side) worst.price price ≡ false
          → Adds
      unfolding add add_new
      add_better is_full last better =
          let (sorted, fit) = IsValid-side b side v in
          let exact : length (side_list b side) ≡ b.n_levels = omega arith in
          ground (
            arith,
            exact,
            insert_level-after_add,
            has_price-take (is_bid side) price shares (side_list b side) e last better,
          )

      add_room : length (side_list b side) < b.n_levels → Adds
      unfolding add add_new
      add_room room =
          let grown = length-full_add (is_bid side) price shares (side_list b side) e in
          ground (
            arith,
            insert_level-after_add,
            take_of_length-le b.n_levels (full_side b side price shares) (omega arith),
            has_price-full_add (is_bid side) price shares (side_list b side),
          )

      add_absent : Adds
      add_absent = elim (dec_lt (length (side_list b side)) b.n_levels) [
        | yes room ↦ add_room room
        | no none_left ↦
            let (worst, last) = last_level_cases (side_list b side) (omega arith) in
            elim (Bool-cases (is_better (is_bid side) worst.price price)) [
              | inl worse ↦ add_worse (omega arith) last worse
              | inr better ↦ add_better (omega arith) last better
            ]
      ]

-- On a valid book `add` never raises: the side becomes the best `n_levels` levels of a book of
-- unlimited depth, a level that is lost is counted, and the result says whether the price is there.
pub add-after_add :
    (b : PriceBook) (side : Text) (price shares : ℕ)
    → IsValid b
    → add b side price shares
      ≡ ok (
        after_add b side price shares,
        has_price price (take b.n_levels (full_side b side price shares)),
      )
add-after_add b side price shares v =
    elim (Option-cases (add_to_level price shares (side_list b side))) [
      | inl e ↦ add_absent b side price shares v e
      | inr (ks, e) ↦ add_found b side price shares v e
    ]
