-- ===== src/Ouch/Total.antt =====
-- `OuchEncoder.encode` of model/ouch.py raises nothing on an order for one of its symbols.
use hft_rtl.Prelude.{
  ℕ, zero, suc, ◌/◌, ◌%◌, ◌^◌, ◌<◌, ◌≡◌, refl, true, List, [], ◌∷◌, arith, map, Text, length,
  length-map, ◌≤◌, ◌-◌, length-append, length-replicate, replicate, get_elem?-some, All,
  All-get_elem?,
}
use hft_rtl.Prelude.Bytes.{is_ascii, is_ascii-append, is_ascii-replicate, ljust_with}
use hft_rtl.Ouch.{OuchEncoder, hex_low, hex_digit, token_of, init}
use hft_rtl.Ouch.Frame.{format_08x-hex_low, length-token_of, IsEncodable}

is_ascii-hex_low : (w n : ℕ) → is_ascii (hex_low w n) ≡ true
unfolding hex_low is_ascii
is_ascii-hex_low zero n = refl
is_ascii-hex_low (suc w) n =
    is_ascii-append (hex_low w (n / 16)) (hex_digit (n % 16) ∷ []) (is_ascii-hex_low w (n / 16))
      (ground arith)

pub is_ascii-token_of : (n : ℕ) → n < 256 ^ 4 → is_ascii (token_of n) ≡ true
unfolding token_of is_ascii
is_ascii-token_of n h = rw (format_08x-hex_low n h) (is_ascii-hex_low 8 n)

-- Eight ASCII letters.
abbrev pub IsStock : Text → Type 0
IsStock s = (length s ≡ 8) × (is_ascii s ≡ true)

pub record IsReady (N : ℕ) (o : OuchEncoder) : Type 0 where
  pub known : length o.symbols ≡ N
  pub stocks : All IsStock o.symbols

pub encode_ready :
    (N : ℕ) (o : OuchEncoder) (idx : ℕ) (side : Text) (shares price : ℕ)
    → IsReady N o
    → o.counter < 256 ^ 4
    → idx < N
    → length side ≡ 1
    → is_ascii side ≡ true
    → shares < 256 ^ 4
    → price < 256 ^ 4
    → (stock : Text) × IsEncodable o idx side shares price stock
encode_ready N o idx side shares price r small known one letter hs hp =
    let (stock, e) = get_elem?-some o.symbols idx (omega (arith, r.known)) in
    let (eight, spelled) = All-get_elem? IsStock o.symbols idx r.stocks e in
    (
      stock,
      record {
        known = e;
        stock_is_ascii = spelled;
        side_is_ascii = letter;
        shares_fit = hs;
        price_fits = hp;
        filled = omega (arith, length-token_of o.counter small);
      },
    )

-- A name of up to eight ASCII letters.
abbrev pub IsName : Text → Type 0
IsName s = (length s ≤ 8) × (is_ascii s ≡ true)

ljust-IsStock : (s : Text) → IsName s → IsStock (ljust_with b' ' 8 s)
unfolding ljust_with
ljust-IsStock s (short, spelled) =
    let filled = length-append s (replicate (8 - length s) b' ') in
    let fill = length-replicate {A = ℕ} (8 - length s) b' ' in
    (
      omega (arith, filled, fill),
      is_ascii-append s (replicate (8 - length s) b' ') spelled
          (is_ascii-replicate (8 - length s) b' ' (omega arith)),
    )

map-IsStock : (ss : List Text) → All IsName ss → All IsStock (map (ljust_with b' ' 8) ss)
map-IsStock [] h = tt
map-IsStock (s ∷ ss) (n, h) = (ljust-IsStock s n, map-IsStock ss h)

pub init-IsReady :
    (symbols : List Text) → All IsName symbols → IsReady (length symbols) (init symbols)
init-IsReady symbols h = record {
  known = length-map symbols (ljust_with b' ' 8);
  stocks = map-IsStock symbols h;
}
