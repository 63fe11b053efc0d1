-- ===== src/Ouch/Frame.antt =====
-- Which orders model/ouch.py encodes, and what a reader of the frame finds.
use hft_rtl.Prelude.{
  ℕ, zero, suc, ◌+◌, ◌/◌, ◌^◌, ◌<◌, ◌≡◌, ◌↔◌, refl, ap, ◌∙◌, [], ◌∷◌, ◌++◌, arith, true, nat_eq,
  length, length-append, get_elem?, Text, some, Option-cases, inl, inr, take-append_exact,
  drop-append_exact,
}
use hft_rtl.Prelude.Bytes.{
  Bytes, be, pack_be, length-be, of_be, of_be-be, is_ascii, ascii, split_at,
}
use hft_rtl.Prelude.Result.{Result, ok}
use hft_rtl.Ouch.{
  OuchEncoder, hex_low, hex_high, format_08x, token_of, trailer, enter_order, checked, encode_with,
  encode,
}

length-hex_low : (w n : ℕ) → length (hex_low w n) ≡ w
unfolding hex_low
length-hex_low zero n = refl
length-hex_low (suc w) n =
    length-append (hex_low w (n / 16)) _ ∙ omega (arith, length-hex_low w (n / 16))

-- A counter below 2^32 has eight digits.
pub format_08x-hex_low : (n : ℕ) → n < 256 ^ 4 → format_08x n ≡ hex_low 8 n
unfolding format_08x hex_high
format_08x-hex_low zero h = refl
format_08x-hex_low (suc n) h = let no_more : suc n / 16 ^ 8 ≡ 0 = omega arith in rw no_more refl

pub length-token_of : (n : ℕ) → n < 256 ^ 4 → length (token_of n) ≡ 14
unfolding token_of
length-token_of n h = rw (format_08x-hex_low n h) (omega (arith, length-hex_low 8 n))

length-trailer : length trailer ≡ 17
unfolding trailer be
length-trailer = refl

pub length-enter_order :
    (token side shares stock price : Bytes)
    → length (enter_order token side shares stock price)
      ≡ length token + length side + length shares + length stock + length price + 18
unfolding enter_order
length-enter_order token side shares stock price = omega (
  arith,
  length-append token (side ++ (shares ++ (stock ++ (price ++ trailer)))),
  length-append side (shares ++ (stock ++ (price ++ trailer))),
  length-append shares (stock ++ (price ++ trailer)),
  length-append stock (price ++ trailer),
  length-append price trailer,
  length-trailer,
)

-- What a reader of the wire format finds in a frame, field by field.
pub record Fields : Type 0 where
  pub length_field : ℕ
  pub kind : Bytes
  pub token : Bytes
  pub side : Bytes
  pub shares : ℕ
  pub stock : Bytes
  pub price : ℕ
  pub rest : Bytes

unfoldable pub read_order : Bytes → Fields
read_order frame =
    let (len, f1) = split_at 2 frame in
    let (kind, f2) = split_at 1 f1 in
    let (token, f3) = split_at 14 f2 in
    let (side, f4) = split_at 1 f3 in
    let (shares, f5) = split_at 4 f4 in
    let (stock, f6) = split_at 8 f5 in
    let (price, rest) = split_at 4 f6 in
    record {
      length_field = of_be len;
      kind = kind;
      token = token;
      side = side;
      shares = of_be shares;
      stock = stock;
      price = of_be price;
      rest = rest;
    }

unfoldable pub frame_of : Bytes → Bytes → ℕ → Bytes → ℕ → Bytes
frame_of token side shares stock price =
    be 2 49 ++ enter_order token side (be 4 shares) stock (be 4 price)

pub read_order-frame_of :
    (token side stock : Bytes) (shares price : ℕ)
    → length token ≡ 14
    → length side ≡ 1
    → length stock ≡ 8
    → shares < 256 ^ 4
    → price < 256 ^ 4
    → read_order (frame_of token side shares stock price) ≡ record {
      length_field = 49;
      kind = b'O' ∷ [];
      token = token;
      side = side;
      shares = shares;
      stock = stock;
      price = price;
      rest = trailer;
    }
unfolding read_order frame_of enter_order
read_order-frame_of token side stock shares price h14 h1 h8 hs hp =
    let f6 = be 4 price ++ trailer in
    let f5 = stock ++ f6 in
    let f4 = be 4 shares ++ f5 in
    let f3 = side ++ f4 in
    let msg = b'O' ∷ (token ++ f3) in
    rw
      (
        take-append_exact 2 (be 2 49) msg (length-be 2 49),
        drop-append_exact 2 (be 2 49) msg (length-be 2 49),
        take-append_exact 14 token f3 h14,
        drop-append_exact 14 token f3 h14,
        take-append_exact 1 side f4 h1,
        drop-append_exact 1 side f4 h1,
        take-append_exact 4 (be 4 shares) f5 (length-be 4 shares),
        drop-append_exact 4 (be 4 shares) f5 (length-be 4 shares),
        take-append_exact 8 stock f6 h8,
        drop-append_exact 8 stock f6 h8,
        take-append_exact 4 (be 4 price) trailer (length-be 4 price),
        drop-append_exact 4 (be 4 price) trailer (length-be 4 price),
        of_be-be 4 shares hs,
        of_be-be 4 price hp,
      )
      (rw (of_be-be 2 49 (omega arith)) refl)

-- The order can be encoded: the symbol is known, the texts are ASCII and fill their fields, and the
-- numbers fit theirs.
pub record IsEncodable (o : OuchEncoder) (symbol_idx : ℕ) (side : Text) (shares price : ℕ)
    (stock : Text) : Type 0 where
  pub known : get_elem? o.symbols symbol_idx ≡ some stock
  pub stock_is_ascii : is_ascii stock ≡ true
  pub side_is_ascii : is_ascii side ≡ true
  pub shares_fit : shares < 256 ^ 4
  pub price_fits : price < 256 ^ 4
  pub filled : length (token_of o.counter) + length side + length stock ≡ 23

pub encode_lem :
    (o : OuchEncoder) (idx : ℕ) (side stock : Text) (shares price : ℕ)
    → IsEncodable o idx side shares price stock
    → encode o idx side shares price ≡ (
      record o { counter = o.counter + 1 },
      ok (frame_of (token_of o.counter) side shares stock price),
    )
unfolding encode encode_with checked frame_of ascii pack_be
encode_lem o idx side stock shares price h =
    let size = length-enter_order (token_of o.counter) side (be 4 shares) stock (be 4 price) in
    let fits : nat_eq
          (length (enter_order (token_of o.counter) side (be 4 shares) stock (be 4 price))) 49
        ≡ true =
      ground (arith, size, length-be 4 shares, length-be 4 price, h.filled) in
    ground (arith, h.known, h.stock_is_ascii, h.side_is_ascii, h.shares_fit, h.price_fits, fits)

pub IsEncodable-of_ok :
    (o o' : OuchEncoder) (idx : ℕ) (side : Text) (shares price : ℕ) (frame : Bytes)
    → encode o idx side shares price ≡ (o', ok frame)
    → (stock : Text) × IsEncodable o idx side shares price stock
unfolding encode encode_with checked ascii pack_be
IsEncodable-of_ok o o' idx side shares price frame e =
    elim (Option-cases (get_elem? o.symbols idx)) [
      | inl missing ↦ absurd (ground arith)
      | inr (stock, found) ↦
          let size =
            length-enter_order (token_of o.counter) side (be 4 shares) stock (be 4 price) in
          (
            stock,
            record {
              known = found;
              stock_is_ascii = ground arith;
              side_is_ascii = ground arith;
              shares_fit = ground arith;
              price_fits = ground arith;
              filled = ground (arith, size, length-be 4 shares, length-be 4 price);
            },
          )
    ]

-- An order is encoded exactly if it is encodable.
pub encode-ok_iff :
    (o : OuchEncoder) (idx : ℕ) (side : Text) (shares price : ℕ)
    → ((frame : Bytes) × ((encode o idx side shares price).1 ≡ ok frame))
      ↔ ((stock : Text) × IsEncodable o idx side shares price stock)
encode-ok_iff o idx side shares price =
    let o' = (encode o idx side shares price).0 in
    (
      λ (frame, e).
          IsEncodable-of_ok o o' idx side shares price frame (ap (λ (r : Result Bytes). (o', r)) e),
      λ (stock, h). (
        frame_of (token_of o.counter) side shares stock price,
        ap (λ (p : OuchEncoder × Result Bytes). p.1) (encode_lem o idx side stock shares price h),
      ),
    )

length-frame_of :
    (token side stock : Bytes) (shares price : ℕ)
    → length token + length side + length stock ≡ 23
    → length (frame_of token side shares stock price) ≡ 51
unfolding frame_of
length-frame_of token side stock shares price h = omega (
  arith,
  length-append (be 2 49) (enter_order token side (be 4 shares) stock (be 4 price)),
  length-enter_order token side (be 4 shares) stock (be 4 price),
  length-be 2 49,
  length-be 4 shares,
  length-be 4 price,
)

-- An encodable order with a one-letter side, one of the first 2^32 calls, becomes a frame of 51
-- bytes, and a reader of the wire format finds in it the length 49, the token of the call's number
-- and the order's side, shares, symbol and price; the counter moves on by one.
pub encode-read_order :
    (o : OuchEncoder) (idx : ℕ) (side stock : Text) (shares price : ℕ)
    → IsEncodable o idx side shares price stock
    → length side ≡ 1
    → o.counter < 256 ^ 4
    → (raw : Bytes) × (encode o idx side shares price
        ≡ (record o { counter = o.counter + 1 }, ok raw))
      × (length raw ≡ 51)
      × (read_order raw ≡ record {
        length_field = 49;
        kind = b'O' ∷ [];
        token = token_of o.counter;
        side = side;
        shares = shares;
        stock = stock;
        price = price;
        rest = trailer;
      })
encode-read_order o idx side stock shares price h h1 hc =
    let token = token_of o.counter in
    let h14 = length-token_of o.counter hc in
    (
      frame_of token side shares stock price,
      encode_lem o idx side stock shares price h,
      length-frame_of token side stock shares price h.filled,
      read_order-frame_of token side stock shares price h14 h1 (omega (arith, h.filled))
          h.shares_fit h.price_fits,
    )
