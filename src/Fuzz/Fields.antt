-- ===== src/Fuzz/Fields.antt =====
-- The decoders of model/itch.py on the fields that model/fuzz_stream.py packs.
use hft_rtl.Prelude.{
  ℕ, ◌+◌, ◌^◌, ◌<◌, ◌≡◌, refl, ◌∙◌, true, Text, some, [], ◌++◌, arith, nat_eq, length,
  length-append, take, take_of_length-le, take-append_exact, drop-append_exact, nat_key,
}
use hft_rtl.Prelude.Bytes.{Bytes, be, of_be-be, length-be, is_ascii, ascii}
use hft_rtl.Prelude.Dict.{lookup}
use hft_rtl.Prelude.Result.{Result, ok}
use hft_rtl.Itch.Message.{DecodedMsg, Kind}
use hft_rtl.Itch.{
  sized, decode_delete, decode_shares, decode_replace, decode_add, layouts, parse_message,
}
use hft_rtl.Fuzz.Messages.{hdr}

pub sized-take : (n : ℕ) (xs ys : Bytes) → length xs ≡ n → sized n (take n (xs ++ ys)) ≡ ok xs
unfolding sized
sized-take n xs ys h = rw (take-append_exact n xs ys h) (ground arith)

-- A header and a body of the layout's length reach the layout's decoder.
pub parse_layout :
    (t n : ℕ) (decoder : Bytes → Result DecodedMsg) (body : Bytes) (msg : DecodedMsg)
    → lookup t layouts ≡ some (n, decoder)
    → length body + 11 ≡ n
    → decoder body ≡ ok msg
    → parse_message (hdr t ++ body) ≡ ok (some msg)
unfolding parse_message be
parse_layout t n decoder body msg e len d =
    let fits : nat_eq (length (hdr t ++ body)) n ≡ true = ground arith in
    rw (e, parse_message) (rw fits (rw d refl))

-- Two fields in a row.
pub length-fields : (v w a b : ℕ) → length (be v a ++ be w b) ≡ v + w
length-fields v w a b =
    length-append (be v a) (be w b) ∙ omega (arith, length-be v a, length-be w b)

pub decode_shares-fields :
    (kind : Kind) (id shares : ℕ) (rest : Bytes)
    → id < 256 ^ 8
    → shares < 256 ^ 4
    → decode_shares kind ((be 8 id ++ be 4 shares) ++ rest)
      ≡ ok (record {
        kind = kind;
        order_id = id;
        new_order_id = 0;
        side = [];
        shares = shares;
        price = 0;
        symbol = [];
      })
unfolding decode_shares
decode_shares-fields kind id shares rest hi hs = rw (
  sized-take 12 (be 8 id ++ be 4 shares) rest (length-fields 8 4 id shares),
  take-append_exact 8 (be 8 id) (be 4 shares) (length-be 8 id),
  drop-append_exact 8 (be 8 id) (be 4 shares) (length-be 8 id),
  of_be-be 8 id hi,
  of_be-be 4 shares hs,
)

-- The bare fields of a message, unset ones at the defaults of `DecodedMsg`.
abbrev pub message : Kind → ℕ → ℕ → Text → ℕ → ℕ → Text → DecodedMsg
message kind id new_id side shares price symbol = record {
  kind = kind;
  order_id = id;
  new_order_id = new_id;
  side = side;
  shares = shares;
  price = price;
  symbol = symbol;
}

unfoldable pub add_fields : ℕ → Bytes → ℕ → Bytes → ℕ → Bytes
add_fields id side shares symbol price =
    be 8 id ++ (side ++ (be 4 shares ++ (symbol ++ be 4 price)))

pub length-add_fields :
    (id : ℕ) (side : Bytes) (shares : ℕ) (symbol : Bytes) (price : ℕ)
    → length side ≡ 1
    → length symbol ≡ 8
    → length (add_fields id side shares symbol price) ≡ 25
unfolding add_fields
length-add_fields id side shares symbol price h1 h8 = omega (
  arith,
  length-append (be 8 id) (side ++ (be 4 shares ++ (symbol ++ be 4 price))),
  length-append side (be 4 shares ++ (symbol ++ be 4 price)),
  length-append (be 4 shares) (symbol ++ be 4 price),
  length-append symbol (be 4 price),
  length-be 8 id,
  length-be 4 shares,
  length-be 4 price,
)

pub decode_add-fields :
    (id : ℕ) (side : Bytes) (shares : ℕ) (symbol : Bytes) (price : ℕ) (rest : Bytes)
    → length side ≡ 1
    → length symbol ≡ 8
    → is_ascii side ≡ true
    → is_ascii symbol ≡ true
    → id < 256 ^ 8
    → shares < 256 ^ 4
    → price < 256 ^ 4
    → decode_add (add_fields id side shares symbol price ++ rest)
      ≡ ok (message Kind.add id 0 side shares price symbol)
unfolding decode_add add_fields ascii
decode_add-fields id side shares symbol price rest h1 h8 a1 a8 hi hs hp = rw (
  sized-take 25 (add_fields id side shares symbol price) rest
      (length-add_fields id side shares symbol price h1 h8),
  take-append_exact 8 (be 8 id) (side ++ (be 4 shares ++ (symbol ++ be 4 price))) (length-be 8 id),
  drop-append_exact 8 (be 8 id) (side ++ (be 4 shares ++ (symbol ++ be 4 price))) (length-be 8 id),
  take-append_exact 1 side (be 4 shares ++ (symbol ++ be 4 price)) h1,
  drop-append_exact 1 side (be 4 shares ++ (symbol ++ be 4 price)) h1,
  take-append_exact 4 (be 4 shares) (symbol ++ be 4 price) (length-be 4 shares),
  drop-append_exact 4 (be 4 shares) (symbol ++ be 4 price) (length-be 4 shares),
  take-append_exact 8 symbol (be 4 price) h8,
  drop-append_exact 8 symbol (be 4 price) h8,
  a1,
  a8,
  of_be-be 8 id hi,
  of_be-be 4 shares hs,
  of_be-be 4 price hp,
)

unfoldable pub replace_fields : ℕ → ℕ → ℕ → ℕ → Bytes
replace_fields id new_id shares price = be 8 id ++ (be 8 new_id ++ (be 4 shares ++ be 4 price))

pub length-replace_fields :
    (id new_id shares price : ℕ) → length (replace_fields id new_id shares price) ≡ 24
unfolding replace_fields
length-replace_fields id new_id shares price = omega (
  arith,
  length-append (be 8 id) (be 8 new_id ++ (be 4 shares ++ be 4 price)),
  length-append (be 8 new_id) (be 4 shares ++ be 4 price),
  length-append (be 4 shares) (be 4 price),
  length-be 8 id,
  length-be 8 new_id,
  length-be 4 shares,
  length-be 4 price,
)

pub decode_replace-fields :
    (id new_id shares price : ℕ)
    → id < 256 ^ 8
    → new_id < 256 ^ 8
    → shares < 256 ^ 4
    → price < 256 ^ 4
    → decode_replace (replace_fields id new_id shares price)
      ≡ ok (message Kind.replace id new_id [] shares price [])
unfolding decode_replace replace_fields sized
decode_replace-fields id new_id shares price hi hn hs hp =
    let len = length-replace_fields id new_id shares price in
    rw (
      take_of_length-le 24 (replace_fields id new_id shares price) (omega (arith, len)),
      len,
      take-append_exact 8 (be 8 id) (be 8 new_id ++ (be 4 shares ++ be 4 price)) (length-be 8 id),
      drop-append_exact 8 (be 8 id) (be 8 new_id ++ (be 4 shares ++ be 4 price)) (length-be 8 id),
      take-append_exact 8 (be 8 new_id) (be 4 shares ++ be 4 price) (length-be 8 new_id),
      drop-append_exact 8 (be 8 new_id) (be 4 shares ++ be 4 price) (length-be 8 new_id),
      take-append_exact 4 (be 4 shares) (be 4 price) (length-be 4 shares),
      drop-append_exact 4 (be 4 shares) (be 4 price) (length-be 4 shares),
      of_be-be 8 id hi,
      of_be-be 8 new_id hn,
      of_be-be 4 shares hs,
      of_be-be 4 price hp,
    )

pub decode_delete-fields :
    (id : ℕ) → id < 256 ^ 8 → decode_delete (be 8 id) ≡ ok (message Kind.delete id 0 [] 0 0 [])
unfolding decode_delete sized
decode_delete-fields id hi = rw (
  take_of_length-le 8 (be 8 id) (omega (arith, length-be 8 id)),
  length-be 8 id,
  of_be-be 8 id hi,
)
