-- ===== src/Tests/Ouch.antt =====
-- model/ouch.py on concrete orders.
use hft_rtl.Prelude.{ℕ, ◌^◌, ◌≡◌, ◌≢◌, ◌↔◌, refl, [], ◌∷◌, arith, length, Text}
use hft_rtl.Prelude.Bytes.{Bytes, be, is_ascii, pack_be, ascii, ljust_with}
use hft_rtl.Prelude.Result.{ok, raise, index_error, struct_error, unicode_error, assertion_error}
use hft_rtl.Ouch.{
  OuchEncoder, init, hex_low, hex_high, format_08x, token_of, trailer, enter_order, checked,
  encode_with, encode,
}
use hft_rtl.Ouch.Frame.{read_order, frame_of, IsEncodable, encode-ok_iff, encode-read_order}
use hft_rtl.Ouch.Tokens.{token_slice, done, encode-tokens_differ}

program : Unit {0}
unfolding ljust_with hex_low hex_high format_08x token_of trailer enter_order checked encode_with
    encode be is_ascii pack_be ascii frame_of token_slice
program = tt

abbrev spy : Text
spy = b'S' ∷ b'P' ∷ b'Y' ∷ []

abbrev padded_spy : Text
padded_spy = b'S' ∷ b'P' ∷ b'Y' ∷ b' ' ∷ b' ' ∷ b' ' ∷ b' ' ∷ b' ' ∷ []

abbrev encoder : OuchEncoder
encoder = init (spy ∷ [])

abbrev second : OuchEncoder
second = record encoder { counter = 1 }

abbrev third : OuchEncoder
third = record encoder { counter = 2 }

abbrev buy : Text
buy = b'B' ∷ []

digits-format_08x : format_08x 43981 ≡ b'0' ∷ b'0' ∷ b'0' ∷ b'0' ∷ b'A' ∷ b'B' ∷ b'C' ∷ b'D' ∷ []
unfolding program
digits-format_08x = refl

long-format_08x :
    format_08x (16 ^ 8) ≡ b'1' ∷ b'0' ∷ b'0' ∷ b'0' ∷ b'0' ∷ b'0' ∷ b'0' ∷ b'0' ∷ b'0' ∷ []
unfolding program
long-format_08x = refl

raises_on_index : encode encoder 1 buy 100 1000 ≡ (second, raise index_error)
unfolding program
raises_on_index = refl

raises_on_side : encode encoder 0 (200 ∷ []) 100 1000 ≡ (second, raise unicode_error)
unfolding program
raises_on_side = refl

raises_on_shares : encode encoder 0 buy (256 ^ 4) 1000 ≡ (second, raise struct_error)
unfolding program
raises_on_shares = refl

raises_on_size : encode encoder 0 (b'B' ∷ b'B' ∷ []) 100 1000 ≡ (second, raise assertion_error)
unfolding program
raises_on_size = refl

encodable : IsEncodable encoder 0 buy 100 1000 padded_spy
unfolding program
encodable = record {
  known = refl;
  stock_is_ascii = refl;
  side_is_ascii = refl;
  shares_fit = omega arith;
  price_fits = omega arith;
  filled = refl;
}

encode-ok_iff_example :
    ((frame : Bytes) × ((encode encoder 0 buy 100 1000).1 ≡ ok frame))
    ↔ ((stock : Text) × IsEncodable encoder 0 buy 100 1000 stock)
encode-ok_iff_example = encode-ok_iff encoder 0 buy 100 1000

encode-read_order_example :
    (raw : Bytes) × (encode encoder 0 buy 100 1000 ≡ (second, ok raw))
    × (length raw ≡ 51)
    × (read_order raw ≡ record {
      length_field = 49;
      kind = b'O' ∷ [];
      token = token_of 0;
      side = buy;
      shares = 100;
      stock = padded_spy;
      price = 1000;
      rest = trailer;
    })
encode-read_order_example =
    encode-read_order encoder 0 buy padded_spy 100 1000 encodable refl (omega arith)

abbrev frame : ℕ → Bytes
frame counter = frame_of (token_of counter) buy 100 padded_spy 1000

first_step : encode encoder 0 buy 100 1000 ≡ (second, ok (frame 0))
unfolding program
first_step = refl

second_step : encode second 0 buy 100 1000 ≡ (third, ok (frame 1))
unfolding program
second_step = refl

encode-tokens_differ_example : token_slice (frame 0) ≢ token_slice (frame 1)
encode-tokens_differ_example =
    encode-tokens_differ encoder second second third 0 0 100 100 1000 1000 buy buy (frame 0)
      (frame 1) first_step done second_step (omega arith)
