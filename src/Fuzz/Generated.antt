-- ===== src/Fuzz/Generated.antt =====
-- What `generate_messages` of model/fuzz_stream.py generates.
use hft_rtl.Prelude.{
  ℕ, zero, suc, ◌+◌, ◌*◌, ◌^◌, ◌≤◌, ◌<◌, ◌≡◌, inl, inr, refl, List, [], ◌∷◌, ◌++◌, arith, ltb, Text,
  length, get_elem?-some, Bool-cases, All, All-get_elem?, All-append, All-take, length-append,
  length-take,
}
use hft_rtl.Fuzz.Sizes.{EventIsBytes}
use hft_rtl.Prelude.Bytes.{Bytes, IsByte, is_ascii}
use hft_rtl.Prelude.Result.{ok, ◌>>=◌, Returns, Returns-bind}
use hft_rtl.Fuzz.Draws.{
  Rng, InRange, below_05, below_10, below_30, below_50, below_55, below_75, below_85,
}
use hft_rtl.Fuzz.RoundTrip.{
  Build, add, exec, exec_price, cancel, delete, replace, system, build, IsInRange,
}
use hft_rtl.Fuzz.Generate.{
  sym8, sides, events, choice, Drawn, cancel_some, execute_some, replace_some, follow_up,
  system_event, system_some, turn, generate_from, generate_messages,
}
use hft_rtl.Fuzz.Built.{IsBuilt, build-IsBuilt, IsAscii, IsSymbol, sym8-IsSymbol}

module _ {G : Type 0} (rng : Rng G) (law : InRange rng) where
  choice-All :
      {A : Type 0} (P : A → Type 0) (xs : List A) (g : G)
      → 0 < length xs
      → All P xs
      → Returns (λ (r : A × G). P r.0) (choice rng xs g)
  unfolding choice
  choice-All P xs g some_ h =
      let (x, at) =
        get_elem?-some xs (rng.choice_index (length xs) g).0
          (law.choice_below (length xs) g some_) in
      rw at (All-get_elem? P xs (rng.choice_index (length xs) g).0 h at)

  -- Everything appended is built, and each id that is used up has a message.
  abbrev IsGood : ℕ → Drawn rng → Type 0
  IsGood order_id (ms, next, g) = All IsBuilt ms × (next ≤ order_id + length ms)

  one_message-IsGood :
      (order_id next : ℕ) (g : G) (q : Build)
      → IsInRange q
      → EventIsBytes q
      → next ≤ order_id + 1
      → Returns (IsGood order_id) (build q >>= λ m. ok (m ∷ [], next, g))
  one_message-IsGood order_id next g q h e fits =
      Returns-bind IsBuilt (IsGood order_id) (build q) _ (build-IsBuilt q h e)
        (λ m b. ((b, tt), omega arith))

  module _ (oid shares order_id : ℕ) (g : G) (ho : oid < 256 ^ 8) (h1 : 0 < shares)
      (hs : shares < 5000) where
    cancel_some-IsGood : Returns (IsGood order_id) (cancel_some rng oid shares order_id g)
    unfolding cancel_some
    cancel_some-IsGood =
        let below = law.randrange_below 1 (shares + 1) g (omega arith) in
        one_message-IsGood order_id order_id (rng.randrange 1 (shares + 1) g).1
          (cancel oid (rng.randrange 1 (shares + 1) g).0) (ho, omega (arith, below)) tt
          (omega arith)

    execute_some-IsGood :
        (price : ℕ)
        → price < 256 ^ 4
        → Returns (IsGood order_id) (execute_some rng oid shares price order_id g)
    unfolding execute_some
    execute_some-IsGood price hp =
        let (ex_shares, g1) = rng.randrange 1 (shares + 1) g in
        let (coin, g2) = rng.random g1 in
        let (printable, g3) = rng.randrange 0 2 g2 in
        let below = law.randrange_below 1 (shares + 1) g (omega arith) in
        let bit = law.randrange_below 0 2 g2 (omega arith) in
        elim (Bool-cases (ltb coin below_50)) [
          | inl e ↦ rw e (
              one_message-IsGood order_id order_id g2 (exec oid ex_shares)
                (ho, omega (arith, below)) tt (omega arith))
          | inr e ↦ rw e (
              one_message-IsGood order_id order_id g3 (exec_price oid ex_shares printable price)
                (ho, omega (arith, below), omega (arith, bit), hp) tt (omega arith))
        ]

    replace_some-IsGood :
        order_id < 256 ^ 8 → Returns (IsGood order_id) (replace_some rng oid order_id g)
    unfolding replace_some
    replace_some-IsGood hn =
        let (new_shares, g1) = rng.randrange 1 5000 g in
        let (price, g2) = rng.randrange 1 100000 g1 in
        let below = law.randrange_below 1 5000 g (omega arith) in
        let limit = law.randrange_below 1 100000 g1 (omega arith) in
        one_message-IsGood order_id (order_id + 1) g2
          (replace oid order_id new_shares (price * 100))
          (ho, hn, omega (arith, below), omega (arith, limit)) tt (omega arith)

    follow_up-IsGood :
        (follow price : ℕ)
        → price < 256 ^ 4
        → order_id < 256 ^ 8
        → Returns (IsGood order_id) (follow_up rng follow oid shares price order_id g)
    unfolding follow_up
    follow_up-IsGood follow price hp hn = elim (Bool-cases (ltb follow below_30)) [
      | inl e ↦ rw e (one_message-IsGood order_id order_id g (delete oid) ho tt (omega arith))
      | inr e ↦ rw e (elim (Bool-cases (ltb follow below_55)) [
        | inl e' ↦ rw e' cancel_some-IsGood
        | inr e' ↦ rw e' (elim (Bool-cases (ltb follow below_75)) [
          | inl e'' ↦ rw e'' (execute_some-IsGood price hp)
          | inr e'' ↦ rw e'' (elim (Bool-cases (ltb follow below_85)) [
            | inl e3 ↦ rw e3 (replace_some-IsGood hn)
            | inr e3 ↦ rw e3 (tt, omega arith)
          ])
        ])
      ])
    ]

  abbrev IsSent : List Bytes × G → Type 0
  IsSent (ms, g) = All IsBuilt ms

  abbrev IsLetter : Bytes → Type 0
  IsLetter m = (length m ≡ 1) × All IsByte m

  events-IsLetter : All IsLetter events
  events-IsLetter = (
    (refl, (omega arith, tt)),
    (
      (refl, (omega arith, tt)),
      (
        (refl, (omega arith, tt)),
        ((refl, (omega arith, tt)), ((refl, (omega arith, tt)), ((refl, (omega arith, tt)), tt))),
      ),
    ),
  )

  system_event-IsSent : (g : G) → Returns IsSent (system_event rng g)
  unfolding system_event
  system_event-IsSent g =
      Returns-bind (λ (r : Bytes × G). IsLetter r.0) IsSent (choice rng events g) _
        (choice-All IsLetter events g (omega arith) events-IsLetter)
        (λ event (one, bytes).
          Returns-bind IsBuilt IsSent (build (system event.0)) _
            (build-IsBuilt (system event.0) one bytes) (λ m b. (b, tt)))

  system_some-IsSent : (g : G) → Returns IsSent (system_some rng g)
  unfolding system_some
  system_some-IsSent g =
      let (coin, g') = rng.random g in
      elim (Bool-cases (ltb coin below_05)) [
        | inl e ↦ rw e (system_event-IsSent g')
        | inr e ↦ rw e tt
      ]

  abbrev IsSide : Bytes → Type 0
  IsSide s = (length s ≡ 1) × IsAscii s

  sides-IsSide : All IsSide sides
  unfolding is_ascii
  sides-IsSide = ((refl, refl), ((refl, refl), tt))

  -- A turn appends a message or more.
  abbrev IsTurn : ℕ → Drawn rng → Type 0
  IsTurn oid t = All IsBuilt t.0 × (t.1 ≤ oid + length t.0) × (0 < length t.0)

  module _ (symbols : List Text) (some_ : 0 < length symbols) (spelled : All IsAscii symbols) where
    turn-IsTurn :
        (oid : ℕ) (g : G) → oid + 1 < 256 ^ 8 → Returns (IsTurn oid) (turn rng symbols oid g)
    unfolding turn
    turn-IsTurn oid g ho =
        Returns-bind (λ (r : Text × G). IsAscii r.0) (IsTurn oid) (choice rng symbols g) _
          (choice-All IsAscii symbols g some_ spelled)
          (λ symbol good.
            Returns-bind (λ (r : Bytes × G). IsSide r.0) (IsTurn oid) (choice rng sides symbol.1) _
              (choice-All IsSide sides symbol.1 (omega arith) sides-IsSide)
              (λ side (one, letter).
                let (price_draw, g2) = rng.randrange 1 100000 side.1 in
                let (shares, g3) = rng.randrange 1 5000 g2 in
                let (mpid, g4) = rng.random g3 in
                let (follow, g5) = rng.random g4 in
                let limit = law.randrange_below 1 100000 side.1 (omega arith) in
                let most = law.randrange_below 1 5000 g2 (omega arith) in
                let least = law.randrange_from 1 5000 g2 (omega arith) in
                let within : price_draw * 100 < 256 ^ 4 = omega (arith, limit) in
                Returns-bind IsSymbol (IsTurn oid) (sym8 symbol.0) _ (sym8-IsSymbol symbol.0 good)
                  (λ symbol8 (eight, spelled8).
                    let order =
                      add oid side.0 shares symbol8 (price_draw * 100) (ltb mpid below_10) in
                    Returns-bind IsBuilt (IsTurn oid) (build order) _
                      (build-IsBuilt order
                        (omega arith, one, letter, omega (arith, most), eight, spelled8, within) tt)
                      (λ message built.
                        Returns-bind (IsGood (oid + 1)) (IsTurn oid)
                          (follow_up rng follow oid shares (price_draw * 100) (oid + 1) g5) _
                          (follow_up-IsGood oid shares (oid + 1) g5 (omega arith)
                            (omega (arith, least)) most follow (price_draw * 100) within ho)
                          (λ followed (all, fits).
                            Returns-bind IsSent (IsTurn oid) (system_some rng followed.2) _
                              (system_some-IsSent followed.2)
                              (λ sent all_sent. (
                                (built, All-append IsBuilt followed.0 sent.0 all all_sent),
                                omega (arith, fits, length-append followed.0 sent.0),
                                omega arith,
                              )))))))

    abbrev IsEnough : ℕ → List Bytes × G → Type 0
    IsEnough target r = All IsBuilt r.0 × (target ≤ length r.0)

    -- Each id in use belongs to a message, and each turn appends one or more.
    generate_from-IsEnough :
        (fuel target order_id : ℕ) (messages : List Bytes) (g : G)
        → target + 1 < 256 ^ 8
        → target ≤ length messages + fuel
        → order_id ≤ length messages + 1
        → All IsBuilt messages
        → Returns (IsEnough target) (generate_from rng fuel target symbols order_id messages g)
    unfolding generate_from
    generate_from-IsEnough zero target order_id messages g small fuelled used all =
        (all, omega arith)
    generate_from-IsEnough (suc fuel) target order_id messages g small fuelled used all =
        elim (Bool-cases (ltb (length messages) target)) [
          | inl more ↦
              rw (more, generate_from)
                (Returns-bind (IsTurn order_id) (IsEnough target) (turn rng symbols order_id g) _
                  (turn-IsTurn order_id g (ground arith))
                  (λ t (built, next, grows).
                    let count = length-append messages t.0 in
                    generate_from-IsEnough fuel target t.1 (messages ++ t.0) t.2 small
                      (omega (arith, count)) (omega (arith, count))
                      (All-append IsBuilt messages t.0 all built)))
          | inr enough ↦ rw (enough, generate_from) (all, ground arith)
        ]

    -- If there is a symbol, all symbols are ASCII, the random numbers are in their ranges and the
    -- order ids fit their field, then `generate_messages` ends without an exception and returns
    -- exactly `target_count` messages, each made by a builder from numbers that fit their fields, and
    -- read back by `parse_message`.
    pub generate_messages-IsBuilt :
        (target_count : ℕ) (g : G)
        → target_count + 1 < 256 ^ 8
        → Returns
            (λ (r : List Bytes × G). (length r.0 ≡ target_count) × All IsBuilt r.0)
            (generate_messages rng target_count symbols g)
    unfolding generate_messages
    generate_messages-IsBuilt target_count g small =
        Returns-bind (IsEnough target_count) _
          (generate_from rng target_count target_count symbols 1 [] g) _
          (generate_from-IsEnough target_count target_count 1 [] g small (omega arith) (omega arith)
            tt)
          (λ r (all, enough).
            let cut = length-take target_count r.0 in
            (omega (arith, cut), All-take IsBuilt target_count r.0 all))
