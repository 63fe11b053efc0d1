-- ===== src/Fuzz/Generate.antt =====
-- `_sym8` and `generate_messages` of model/fuzz_stream.py, over a generator of random numbers.
use hft_rtl.Prelude.{
  ℕ, zero, suc, ◌+◌, ◌*◌, true, false, List, [], ◌∷◌, ◌++◌, ltb, if◌then◌else◌, Text, length, take,
  get_elem?,
}
use hft_rtl.Prelude.Bytes.{Bytes, ascii, ljust}
use hft_rtl.Prelude.Result.{Result, ok, ◌>>=◌, or_raise, index_error}
use hft_rtl.Fuzz.Draws.{Rng, below_05, below_10, below_30, below_50, below_55, below_75, below_85}
use hft_rtl.Fuzz.Messages

-- `_sym8`
unfoldable pub sym8 : Text → Result Bytes
sym8 name = do name' ← ascii name; ok (ljust 8 (take 8 name'))

abbrev pub sides : List Bytes
sides = (b'B' ∷ []) ∷ (b'S' ∷ []) ∷ []

abbrev pub events : List Bytes
events = (b'O' ∷ []) ∷ (b'S' ∷ []) ∷ (b'Q' ∷ []) ∷ (b'M' ∷ []) ∷ (b'E' ∷ []) ∷ (b'C' ∷ []) ∷ []

module _ {G : Type 0} (rng : Rng G) where
  -- `rng.choice(xs)`
  unfoldable pub choice : {A : Type 0} → List A → G → Result (A × G)
  choice xs g = do
    let (i, g') = rng.choice_index (length xs) g
    x ← or_raise index_error (get_elem? xs i)
    ok (x, g')

  -- The messages that one draw appends, the next order id, and the generator.
  abbrev pub Drawn : Type 0
  Drawn = List Bytes × ℕ × G

  abbrev one_message : ℕ → G → Bytes → Result Drawn
  one_message order_id g message = ok (message ∷ [], order_id, g)

  unfoldable pub cancel_some : ℕ → ℕ → ℕ → G → Result Drawn
  cancel_some oid shares order_id g =
      let (cancelled, g') = rng.randrange 1 (shares + 1) g in
      Messages.cancel oid cancelled >>= one_message order_id g'

  unfoldable pub execute_some : ℕ → ℕ → ℕ → ℕ → G → Result Drawn
  execute_some oid shares price order_id g =
      let (ex_shares, g1) = rng.randrange 1 (shares + 1) g in
      let (coin, g2) = rng.random g1 in
      let (printable, g3) = rng.randrange 0 2 g2 in
      if ltb coin below_50
      then Messages.exec oid ex_shares >>= one_message order_id g2
      else Messages.exec_price oid ex_shares printable price >>= one_message order_id g3

  unfoldable pub replace_some : ℕ → ℕ → G → Result Drawn
  replace_some oid new_oid g =
      let (shares, g1) = rng.randrange 1 5000 g in
      let (price, g2) = rng.randrange 1 100000 g1 in
      Messages.replace oid new_oid shares (price * 100) >>= one_message (new_oid + 1) g2

  -- What follows an add: `follow` is the draw that decides.
  unfoldable pub follow_up : ℕ → ℕ → ℕ → ℕ → ℕ → G → Result Drawn
  follow_up follow oid shares price order_id g =
      if ltb follow below_30
      then Messages.delete oid >>= one_message order_id g
      else if ltb follow below_55
      then cancel_some oid shares order_id g
      else if ltb follow below_75
      then execute_some oid shares price order_id g
      else if ltb follow below_85
      then replace_some oid order_id g
      else ok ([], order_id, g)

  unfoldable pub system_event : G → Result (List Bytes × G)
  system_event g = do
    event ← choice events g
    message ← Messages.system event.0
    ok (message ∷ [], event.1)

  unfoldable pub system_some : G → Result (List Bytes × G)
  system_some g =
      let (coin, g') = rng.random g in if ltb coin below_05 then system_event g' else ok ([], g')

  -- One turn of the loop: the messages that it appends.
  unfoldable pub turn : List Text → ℕ → G → Result Drawn
  turn symbols oid g = do
    symbol ← choice symbols g
    side ← choice sides symbol.1
    let (price_draw, g2) = rng.randrange 1 100000 side.1
    let price = price_draw * 100
    let (shares, g3) = rng.randrange 1 5000 g2
    let (mpid, g4) = rng.random g3
    symbol8 ← sym8 symbol.0
    message ← Messages.add oid side.0 shares symbol8 price (ltb mpid below_10)
    let (follow, g5) = rng.random g4
    followed ← follow_up follow oid shares price (oid + 1) g5
    sent ← system_some followed.2
    ok (message ∷ (followed.0 ++ sent.0), followed.1, sent.1)

  -- The loop; each turn appends a message or more, so that the fuel is not used up.
  unfoldable pub generate_from : ℕ → ℕ → List Text → ℕ → List Bytes → G → Result (List Bytes × G)
  generate_from zero target_count symbols order_id messages g = ok (messages, g)
  generate_from (suc fuel) target_count symbols order_id messages g =
      elim (ltb (length messages) target_count) [
        | true ↦ turn symbols order_id g >>= λ t.
            generate_from fuel target_count symbols t.1 (messages ++ t.0) t.2
        | false ↦ ok (messages, g)
      ]

  unfoldable pub generate_messages : ℕ → List Text → G → Result (List Bytes × G)
  generate_messages target_count symbols g = do
    generated ← generate_from target_count target_count symbols 1 [] g
    ok (take target_count generated.0, generated.1)
