-- ===== src/Ouch.antt =====
-- model/ouch.py: `class OuchEncoder`. An exception leaves the counter one further, as the code does.
pub mod Frame
pub mod Tokens
pub mod Total
use hft_rtl.Prelude.{
  ℕ, zero, suc, ◌+◌, ◌/◌, ◌%◌, ◌^◌, List, [], ◌∷◌, ◌++◌, map, ltb, nat_eq, if◌then◌else◌, length,
  get_elem?, Text,
}
use hft_rtl.Prelude.Bytes.{Bytes, be, pack_be, ljust, ascii}
use hft_rtl.Prelude.Result.{Result, ok, raise, ◌>>=◌, or_raise, index_error, assertion_error}

pub record OuchEncoder : Type 0 where
  pub symbols : List Text
  pub counter : ℕ

abbrev pub init : List Text → OuchEncoder
init symbols = record { symbols = map (ljust 8) symbols; counter = 0 }

abbrev pub order_count : OuchEncoder → ℕ
order_count o = o.counter

abbrev pub hex_digit : ℕ → ℕ
hex_digit d = if ltb d 10 then b'0' + d else 55 + d

-- The low `w` hexadecimal digits.
unfoldable pub hex_low : ℕ → ℕ → Text
hex_low zero n = []
hex_low (suc w) n = hex_low w (n / 16) ++ hex_digit (n % 16) ∷ []

-- The digits of `n` without leading zeros; `n` itself is fuel enough.
unfoldable pub hex_high : ℕ → ℕ → Text
hex_high zero n = []
hex_high (suc fuel) zero = []
hex_high (suc fuel) (suc n) = hex_high fuel (suc n / 16) ++ hex_digit (suc n % 16) ∷ []

-- `format(n, "08X")`: at least eight digits.
unfoldable pub format_08x : ℕ → Text
format_08x n = hex_high n (n / 16 ^ 8) ++ hex_low 8 n

abbrev pub token_prefix : Text
token_prefix = b'H' ∷ b'F' ∷ b'T' ∷ b'R' ∷ b'T' ∷ b'L' ∷ []

unfoldable pub token_of : ℕ → Text
token_of counter = token_prefix ++ format_08x counter

-- The fields after the price, which are constant.
unfoldable pub trailer : Bytes
trailer = be 4 0 ++ b'H' ∷ b'F' ∷ b'T' ∷ b'R' ∷ b'Y' ∷ b'P' ∷ b'N' ∷ (be 4 0 ++ b'N' ∷ b'R' ∷ [])

unfoldable pub enter_order : Bytes → Bytes → Bytes → Bytes → Bytes → Bytes
enter_order token side shares stock price =
    b'O' ∷ (token ++ (side ++ (shares ++ (stock ++ (price ++ trailer)))))

unfoldable pub checked : Bytes → Result Bytes
checked msg =
    if nat_eq (length msg) 49
    then (pack_be 2 49 >>= λ len. ok (len ++ msg))
    else raise assertion_error

-- The calls that may raise, in their order.
unfoldable pub encode_with : Text → OuchEncoder → ℕ → Text → ℕ → ℕ → Result Bytes
encode_with token o symbol_idx side shares price = do
  symbol ← or_raise index_error (get_elem? o.symbols symbol_idx)
  stock ← ascii symbol
  side_bytes ← ascii side
  shares_bytes ← pack_be 4 shares
  price_bytes ← pack_be 4 price
  checked (enter_order token side_bytes shares_bytes stock price_bytes)

unfoldable pub encode : OuchEncoder → ℕ → Text → ℕ → ℕ → OuchEncoder × Result Bytes
encode o symbol_idx side shares price = (
  record o { counter = o.counter + 1 },
  encode_with (token_of o.counter) o symbol_idx side shares price,
)
