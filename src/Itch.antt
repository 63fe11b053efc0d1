-- ===== src/Itch.antt =====
-- model/itch.py: the parser of the feed's messages.
pub mod Message
pub mod Total
use hft_rtl.Prelude.{
  ℕ, Option, none, some, List, [], ◌∷◌, nat_eq, if◌then◌else◌, length, take, drop, nat_key,
}
use hft_rtl.Prelude.Bytes.{Bytes, of_be, split_at, ascii}
use hft_rtl.Prelude.Dict.{Dict, lookup}
use hft_rtl.Prelude.Result.{Result, ok, raise, ◌>>=◌, struct_error}
use Message.{DecodedMsg, Kind}

-- `_HDR_LEN`
abbrev pub hdr_len : ℕ
hdr_len = 11

-- `struct.unpack` takes exactly the bytes of its format.
unfoldable pub sized : ℕ → Bytes → Result Bytes
sized n body = if nat_eq (length body) n then ok body else raise struct_error

unfoldable pub decode_add : Bytes → Result DecodedMsg
decode_add body = do
  fields ← sized 25 (take 25 body)
  let (order_id, rest) = split_at 8 fields
  let (side, rest1) = split_at 1 rest
  let (shares, rest2) = split_at 4 rest1
  let (symbol, price) = split_at 8 rest2
  side_text ← ascii side
  symbol_text ← ascii symbol
  ok (record {
    kind = Kind.add;
    order_id = of_be order_id;
    new_order_id = 0;
    side = side_text;
    shares = of_be shares;
    price = of_be price;
    symbol = symbol_text;
  })

-- An order number and shares, for `_decode_exec` and `_decode_cancel`.
unfoldable pub decode_shares : Kind → Bytes → Result DecodedMsg
decode_shares kind body = do
  fields ← sized 12 (take 12 body)
  let (order_id, shares) = split_at 8 fields
  ok (record {
    kind = kind;
    order_id = of_be order_id;
    new_order_id = 0;
    side = [];
    shares = of_be shares;
    price = 0;
    symbol = [];
  })

abbrev pub decode_exec : Bytes → Result DecodedMsg
decode_exec = decode_shares Kind.exec

abbrev pub decode_cancel : Bytes → Result DecodedMsg
decode_cancel = decode_shares Kind.cancel

unfoldable pub decode_delete : Bytes → Result DecodedMsg
decode_delete body = do
  order_id ← sized 8 (take 8 body)
  ok (record {
    kind = Kind.delete;
    order_id = of_be order_id;
    new_order_id = 0;
    side = [];
    shares = 0;
    price = 0;
    symbol = [];
  })

unfoldable pub decode_replace : Bytes → Result DecodedMsg
decode_replace body = do
  fields ← sized 24 (take 24 body)
  let (order_id, rest) = split_at 8 fields
  let (new_order_id, rest1) = split_at 8 rest
  let (shares, price) = split_at 4 rest1
  ok (record {
    kind = Kind.replace;
    order_id = of_be order_id;
    new_order_id = of_be new_order_id;
    side = [];
    shares = of_be shares;
    price = of_be price;
    symbol = [];
  })

unfoldable pub decode_system : Bytes → Result DecodedMsg
decode_system body = ok (record {
  kind = Kind.system;
  order_id = 0;
  new_order_id = 0;
  side = [];
  shares = 0;
  price = 0;
  symbol = [];
})

-- `LAYOUTS`: the type byte, the length of the payload, and the decoder.
abbrev pub layouts : Dict ℕ (ℕ × (Bytes → Result DecodedMsg))
layouts =
    (b'S', (12, decode_system))
    ∷ (b'A', (36, decode_add))
    ∷ (b'F', (40, decode_add))
    ∷ (b'E', (31, decode_exec))
    ∷ (b'C', (36, decode_exec))
    ∷ (b'X', (23, decode_cancel))
    ∷ (b'D', (19, decode_delete))
    ∷ (b'U', (35, decode_replace))
    ∷ []

-- The message, or `none` for a payload that is not one.
unfoldable pub parse_message : Bytes → Result (Option DecodedMsg)
parse_message [] = ok none
parse_message (msg_type ∷ rest) = elim (lookup msg_type layouts) [
  | none ↦ ok none
  | some (expected_len, decoder) ↦
      if nat_eq (length (msg_type ∷ rest)) expected_len
      then (do msg ← decoder (drop hdr_len (msg_type ∷ rest)); ok (some msg))
      else ok none
]
