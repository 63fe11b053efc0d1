-- ===== src/Fuzz/Messages.antt =====
-- The ITCH message builders of model/fuzz_stream.py. `struct.pack` raises on a number that its field
-- cannot hold. `_hdr` is always called with its defaults: locate 1, tracking 0, a zero timestamp.
use hft_rtl.Prelude.{ℕ, Bool, [], ◌∷◌, ◌++◌, if◌then◌else◌, nat_eq, length, replicate}
use hft_rtl.Prelude.Bytes.{Bytes, be, pack_be, pack_s}
use hft_rtl.Prelude.Result.{Result, ok, raise, ◌>>=◌, struct_error}

abbrev pub hdr : ℕ → Bytes
hdr t = t ∷ (be 2 1 ++ (be 2 0 ++ replicate 6 0))

-- The format `c`: one byte.
unfoldable pub pack_c : Bytes → Result Bytes
pack_c c = if nat_eq (length c) 1 then ok c else raise struct_error

unfoldable pub add : ℕ → Bytes → ℕ → Bytes → ℕ → Bool → Result Bytes
add order_id side shares symbol8 price mpid = do
  order_id' ← pack_be 8 order_id
  side' ← pack_c side
  shares' ← pack_be 4 shares
  price' ← pack_be 4 price
  let body = order_id' ++ (side' ++ (shares' ++ (pack_s 8 symbol8 ++ price')))
  ok (if mpid then hdr b'F' ++ (body ++ (b'M' ∷ b'P' ∷ b'I' ∷ b'D' ∷ [])) else hdr b'A' ++ body)

unfoldable pub exec : ℕ → ℕ → Result Bytes
exec order_id shares = do
  order_id' ← pack_be 8 order_id
  shares' ← pack_be 4 shares
  ok (hdr b'E' ++ (order_id' ++ (shares' ++ replicate 8 0)))

unfoldable pub exec_price : ℕ → ℕ → ℕ → ℕ → Result Bytes
exec_price order_id shares printable price = do
  order_id' ← pack_be 8 order_id
  shares' ← pack_be 4 shares
  printable' ← pack_be 1 printable
  price' ← pack_be 4 price
  ok (hdr b'C' ++ (order_id' ++ (shares' ++ (replicate 8 0 ++ (printable' ++ price')))))

unfoldable pub cancel : ℕ → ℕ → Result Bytes
cancel order_id shares = do
  order_id' ← pack_be 8 order_id
  shares' ← pack_be 4 shares
  ok (hdr b'X' ++ (order_id' ++ shares'))

unfoldable pub delete : ℕ → Result Bytes
delete order_id = do order_id' ← pack_be 8 order_id; ok (hdr b'D' ++ order_id')

unfoldable pub replace : ℕ → ℕ → ℕ → ℕ → Result Bytes
replace order_id new_order_id shares price = do
  order_id' ← pack_be 8 order_id
  new_order_id' ← pack_be 8 new_order_id
  shares' ← pack_be 4 shares
  price' ← pack_be 4 price
  ok (hdr b'U' ++ (order_id' ++ (new_order_id' ++ (shares' ++ price'))))

unfoldable pub system : Bytes → Result Bytes
system event = do event' ← pack_c event; ok (hdr b'S' ++ event')
