-- ===== src/Ouch/Tokens.antt =====
-- The tokens that model/ouch.py gives to the orders of one encoder.
use native.Mathlib.Nat.{pow-suc}
use mathlib.Core.List.{foldl}
use hft_rtl.Prelude.{
  ℕ, zero, suc, ◌+◌, ◌*◌, ◌-◌, ◌/◌, ◌%◌, ◌^◌, ◌<◌, ◌≤◌, ◌≡◌, ◌≢◌, refl, ap, ◌∙◌, [], ◌∷◌, ◌++◌,
  arith, ltb, if◌then◌else◌, Text, take, drop, take-append_exact,
}
use hft_rtl.Prelude.Bytes.{Bytes, be}
use hft_rtl.Prelude.Result.{Result, ok}
use hft_rtl.Ouch.{OuchEncoder, hex_low, hex_digit, token_of, trailer, enter_order, encode}
use hft_rtl.Ouch.Frame.{
  format_08x-hex_low, length-token_of, frame_of, encode_lem, IsEncodable-of_ok,
}

abbrev pub push_digit : ℕ → ℕ → ℕ
push_digit acc c = acc * 16 + (if ltb c 58 then c - 48 else c - 55)

-- `int(text, 16)`
unfoldable pub of_hex : Text → ℕ
of_hex = foldl push_digit 0

foldl-append_one :
    (xs : Text) (acc c : ℕ)
    → foldl push_digit acc (xs ++ c ∷ []) ≡ push_digit (foldl push_digit acc xs) c
foldl-append_one [] acc c = refl
foldl-append_one (x ∷ xs) acc c = foldl-append_one xs (push_digit acc x) c

push_digit-hex_digit : (acc d : ℕ) → d < 16 → push_digit acc (hex_digit d) ≡ acc * 16 + d
push_digit-hex_digit acc d h = ground arith

pub of_hex-hex_low : (w n : ℕ) → n < 16 ^ w → of_hex (hex_low w n) ≡ n
unfolding of_hex hex_low
of_hex-hex_low zero n h = omega arith
of_hex-hex_low (suc w) n h =
    foldl-append_one (hex_low w (n / 16)) 0 (hex_digit (n % 16))
    ∙ push_digit-hex_digit (of_hex (hex_low w (n / 16))) (n % 16) (omega arith)
    ∙ ap (λ (t : ℕ). t * 16 + n % 16) (of_hex-hex_low w (n / 16) (omega (arith, pow-suc 16 w)))
    ∙ omega arith

pub token_of_injective : (m n : ℕ) → m < 256 ^ 4 → n < 256 ^ 4 → token_of m ≡ token_of n → m ≡ n
unfolding token_of
token_of_injective m n hm hn e =
    let same : hex_low 8 m ≡ hex_low 8 n =
      rw (← format_08x-hex_low m hm, ← format_08x-hex_low n hn) (ap (drop 6) e) in
    omega
      (arith, of_hex-hex_low 8 m (omega arith), of_hex-hex_low 8 n (omega arith), ap of_hex same)

-- `raw[3:17]`, as model/dump_trace.py cuts the token out of a frame.
unfoldable pub token_slice : Bytes → Bytes
token_slice raw = take 14 (drop 3 raw)

pub token_slice-encode :
    (o o' : OuchEncoder) (idx : ℕ) (side : Text) (shares price : ℕ) (raw : Bytes)
    → o.counter < 256 ^ 4
    → encode o idx side shares price ≡ (o', ok raw)
    → token_slice raw ≡ token_of o.counter
unfolding token_slice frame_of enter_order be
token_slice-encode o o' idx side shares price raw h e =
    let (stock, fits) = IsEncodable-of_ok o o' idx side shares price raw e in
    let is : frame_of (token_of o.counter) side shares stock price ≡ raw =
      cc (encode_lem o idx side stock shares price fits) in
    rw (← is) (
      take-append_exact 14 (token_of o.counter)
        (side ++ (be 4 shares ++ (stock ++ (be 4 price ++ trailer)))) (length-token_of o.counter h))

-- Calls of `encode`, those that raise included.
pub data Encodes : OuchEncoder → OuchEncoder → Type 0 where
  done : {o : OuchEncoder} → Encodes o o
  more :
      {o o' o'' : OuchEncoder} {r : Result Bytes} (idx : ℕ) (side : Text) (shares price : ℕ)
      → encode o idx side shares price ≡ (o', r)
      → Encodes o' o''
      → Encodes o o''

encode-counter :
    (o : OuchEncoder) (idx : ℕ) (side : Text) (shares price : ℕ)
    → (encode o idx side shares price).0.counter ≡ o.counter + 1
unfolding encode
encode-counter o idx side shares price = refl

Encodes-counter : {o o' : OuchEncoder} → Encodes o o' → o.counter ≤ o'.counter
Encodes-counter done = omega arith
Encodes-counter (more {o} {o'} idx side shares price e run) =
    let one = encode-counter o idx side shares price in
    let later = Encodes-counter run in ground arith

-- Two orders that one encoder encodes have different tokens in their frames, whatever calls lie
-- between them, if fewer than 2^32 calls came before the second.
pub encode-tokens_differ :
    (o o1 o2 o3 : OuchEncoder) (idx idx' shares shares' price price' : ℕ) (side side' : Text)
    (raw raw' : Bytes)
    → encode o idx side shares price ≡ (o1, ok raw)
    → Encodes o1 o2
    → encode o2 idx' side' shares' price' ≡ (o3, ok raw')
    → o2.counter < 256 ^ 4
    → token_slice raw ≢ token_slice raw'
encode-tokens_differ o o1 o2 o3 idx idx' shares shares' price price' side side' raw raw' e run e'
      h =
    let one : o1.counter ≡ o.counter + 1 = rw e at (encode-counter o idx side shares price) in
    let later = Encodes-counter run in
    λ same.
      let tokens : token_of o.counter ≡ token_of o2.counter =
        rw
          (
            ← token_slice-encode o o1 idx side shares price raw (omega arith) e,
            ← token_slice-encode o2 o3 idx' side' shares' price' raw' h e',
          )
          same in
      absurd (omega (arith, token_of_injective o.counter o2.counter (omega arith) h tokens))
