-- ===== src/Fuzz/RoundTrip.antt =====
-- Each message builder of model/fuzz_stream.py against the parser of model/itch.py.
use hft_rtl.Prelude.{
  ℕ, ◌^◌, ◌<◌, ◌≡◌, refl, Bool, true, false, some, [], ◌∷◌, ◌++◌, arith, length, length-append,
  replicate, append_assoc, append-nil,
}
use hft_rtl.Prelude.Bytes.{Bytes, be, length-be, pack_be_lem, pack_s_exact, is_ascii}
use hft_rtl.Prelude.Dict.{lookup}
use hft_rtl.Prelude.Result.{Result, ok}
use hft_rtl.Itch.Message.{DecodedMsg, Kind}
use hft_rtl.Itch.{
  decode_exec, decode_cancel, decode_delete, decode_replace, decode_add, decode_system,
  parse_message,
}
use hft_rtl.Fuzz.Messages
use hft_rtl.Fuzz.Messages.{hdr, pack_c}
use hft_rtl.Fuzz.Fields.{
  message, parse_layout, add_fields, length-add_fields, decode_add-fields, length-fields,
  decode_shares-fields, replace_fields, length-replace_fields, decode_replace-fields,
  decode_delete-fields,
}

-- A call of one of the builders.
pub data Build : Type 0 where
  add : ℕ → Bytes → ℕ → Bytes → ℕ → Bool → Build
  exec : ℕ → ℕ → Build
  exec_price : ℕ → ℕ → ℕ → ℕ → Build
  cancel : ℕ → ℕ → Build
  delete : ℕ → Build
  replace : ℕ → ℕ → ℕ → ℕ → Build
  system : Bytes → Build

abbrev pub build : Build → Result Bytes
build (add id side shares symbol price mpid) = Messages.add id side shares symbol price mpid
build (exec id shares) = Messages.exec id shares
build (exec_price id shares printable price) = Messages.exec_price id shares printable price
build (cancel id shares) = Messages.cancel id shares
build (delete id) = Messages.delete id
build (replace id new_id shares price) = Messages.replace id new_id shares price
build (system event) = Messages.system event

-- What the message says.
abbrev pub meaning : Build → DecodedMsg
meaning (add id side shares symbol price mpid) = message Kind.add id 0 side shares price symbol
meaning (exec id shares) = message Kind.exec id 0 [] shares 0 []
meaning (exec_price id shares printable price) = message Kind.exec id 0 [] shares 0 []
meaning (cancel id shares) = message Kind.cancel id 0 [] shares 0 []
meaning (delete id) = message Kind.delete id 0 [] 0 0 []
meaning (replace id new_id shares price) = message Kind.replace id new_id [] shares price []
meaning (system event) = message Kind.system 0 0 [] 0 0 []

-- Numbers fit their fields; the side is one ASCII byte and the symbol eight.
abbrev pub IsInRange : Build → Type 0
IsInRange (add id side shares symbol price mpid) =
    (id < 256 ^ 8)
    × (length side ≡ 1)
    × (is_ascii side ≡ true)
    × (shares < 256 ^ 4)
    × (length symbol ≡ 8)
    × (is_ascii symbol ≡ true)
    × (price < 256 ^ 4)
IsInRange (exec id shares) = (id < 256 ^ 8) × (shares < 256 ^ 4)
IsInRange (exec_price id shares printable price) =
    (id < 256 ^ 8) × (shares < 256 ^ 4) × (printable < 256 ^ 1) × (price < 256 ^ 4)
IsInRange (cancel id shares) = (id < 256 ^ 8) × (shares < 256 ^ 4)
IsInRange (delete id) = id < 256 ^ 8
IsInRange (replace id new_id shares price) =
    (id < 256 ^ 8) × (new_id < 256 ^ 8) × (shares < 256 ^ 4) × (price < 256 ^ 4)
IsInRange (system event) = length event ≡ 1

-- The payload that a build gives, and what the parser makes of it.
abbrev pub ParsesBack : Result Bytes → DecodedMsg → Type 0
ParsesBack r msg = (payload : Bytes) × (r ≡ ok payload) × (parse_message payload ≡ ok (some msg))

pack_c_lem : (c : Bytes) → length c ≡ 1 → pack_c c ≡ ok c
unfolding pack_c
pack_c_lem c h = rw h

add-parses :
    (id : ℕ) (side : Bytes) (shares : ℕ) (symbol : Bytes) (price : ℕ) (mpid : Bool)
    → IsInRange (add id side shares symbol price mpid)
    → ParsesBack
        (Messages.add id side shares symbol price mpid)
        (message Kind.add id 0 side shares price symbol)
unfolding Messages.add add_fields lookup
add-parses id side shares symbol price false (hi, h1, a1, hs, h8, a8, hp) =
    let body = add_fields id side shares symbol price in
    let read = decode_add-fields id side shares symbol price [] h1 h8 a1 a8 hi hs hp in
    let msg = message Kind.add id 0 side shares price symbol in
    (
      hdr b'A' ++ body,
      rw (
        pack_be_lem 8 id hi,
        pack_c_lem side h1,
        pack_be_lem 4 shares hs,
        pack_be_lem 4 price hp,
        pack_s_exact 8 symbol h8,
      ),
      parse_layout b'A' 36 decode_add body msg refl
          (omega (arith, length-add_fields id side shares symbol price h1 h8))
          (rw append-nil at read),
    )
add-parses id side shares symbol price true (hi, h1, a1, hs, h8, a8, hp) =
    let body = add_fields id side shares symbol price in
    let mpid = b'M' ∷ b'P' ∷ b'I' ∷ b'D' ∷ [] in
    let msg = message Kind.add id 0 side shares price symbol in
    (
      hdr b'F' ++ (body ++ mpid),
      rw (
        pack_be_lem 8 id hi,
        pack_c_lem side h1,
        pack_be_lem 4 shares hs,
        pack_be_lem 4 price hp,
        pack_s_exact 8 symbol h8,
      ),
      parse_layout b'F' 40 decode_add (body ++ mpid) msg refl
          (omega
            (arith, length-append body mpid, length-add_fields id side shares symbol price h1 h8))
          (decode_add-fields id side shares symbol price mpid h1 h8 a1 a8 hi hs hp),
    )

exec-parses :
    (id shares : ℕ)
    → IsInRange (exec id shares)
    → ParsesBack (Messages.exec id shares) (message Kind.exec id 0 [] shares 0 [])
unfolding Messages.exec lookup
exec-parses id shares (hi, hs) =
    let body = be 8 id ++ (be 4 shares ++ replicate 8 0) in
    let read = decode_shares-fields Kind.exec id shares (replicate 8 0) hi hs in
    (
      hdr b'E' ++ body,
      rw (pack_be_lem 8 id hi, pack_be_lem 4 shares hs),
      parse_layout b'E' 31 decode_exec body (message Kind.exec id 0 [] shares 0 []) refl
          (omega (
            arith,
            length-append (be 8 id) (be 4 shares ++ replicate 8 0),
            length-append (be 4 shares) (replicate 8 0),
            length-be 8 id,
            length-be 4 shares,
          ))
          (rw append_assoc at read),
    )

exec_price-parses :
    (id shares printable price : ℕ)
    → IsInRange (exec_price id shares printable price)
    → ParsesBack
        (Messages.exec_price id shares printable price)
        (message Kind.exec id 0 [] shares 0 [])
unfolding Messages.exec_price lookup
exec_price-parses id shares printable price (hi, hs, hr, hp) =
    let tail = replicate 8 0 ++ (be 1 printable ++ be 4 price) in
    let body = be 8 id ++ (be 4 shares ++ tail) in
    let read = decode_shares-fields Kind.exec id shares tail hi hs in
    (
      hdr b'C' ++ body,
      rw (
        pack_be_lem 8 id hi,
        pack_be_lem 4 shares hs,
        pack_be_lem 1 printable hr,
        pack_be_lem 4 price hp,
      ),
      parse_layout b'C' 36 decode_exec body (message Kind.exec id 0 [] shares 0 []) refl
          (omega (
            arith,
            length-append (be 8 id) (be 4 shares ++ tail),
            length-append (be 4 shares) tail,
            length-append (be 1 printable) (be 4 price),
            length-be 8 id,
            length-be 4 shares,
            length-be 1 printable,
            length-be 4 price,
          ))
          (rw append_assoc at read),
    )

cancel-parses :
    (id shares : ℕ)
    → IsInRange (cancel id shares)
    → ParsesBack (Messages.cancel id shares) (message Kind.cancel id 0 [] shares 0 [])
unfolding Messages.cancel lookup
cancel-parses id shares (hi, hs) =
    let body = be 8 id ++ be 4 shares in
    let read = decode_shares-fields Kind.cancel id shares [] hi hs in
    (
      hdr b'X' ++ body,
      rw (pack_be_lem 8 id hi, pack_be_lem 4 shares hs),
      parse_layout b'X' 23 decode_cancel body (message Kind.cancel id 0 [] shares 0 []) refl
          (omega (arith, length-fields 8 4 id shares)) (rw append-nil at read),
    )

delete-parses :
    (id : ℕ)
    → IsInRange (delete id)
    → ParsesBack (Messages.delete id) (message Kind.delete id 0 [] 0 0 [])
unfolding Messages.delete lookup
delete-parses id hi = (
  hdr b'D' ++ be 8 id,
  rw (pack_be_lem 8 id hi),
  parse_layout b'D' 19 decode_delete (be 8 id) (message Kind.delete id 0 [] 0 0 []) refl
      (omega (arith, length-be 8 id)) (decode_delete-fields id hi),
)

replace-parses :
    (id new_id shares price : ℕ)
    → IsInRange (replace id new_id shares price)
    → ParsesBack
        (Messages.replace id new_id shares price)
        (message Kind.replace id new_id [] shares price [])
unfolding Messages.replace lookup replace_fields
replace-parses id new_id shares price (hi, hn, hs, hp) = (
  hdr b'U' ++ replace_fields id new_id shares price,
  rw (
    pack_be_lem 8 id hi,
    pack_be_lem 8 new_id hn,
    pack_be_lem 4 shares hs,
    pack_be_lem 4 price hp,
  ),
  parse_layout b'U' 35 decode_replace (replace_fields id new_id shares price)
      (message Kind.replace id new_id [] shares price []) refl
      (omega (arith, length-replace_fields id new_id shares price))
      (decode_replace-fields id new_id shares price hi hn hs hp),
)

system-parses :
    (event : Bytes)
    → IsInRange (system event)
    → ParsesBack (Messages.system event) (message Kind.system 0 0 [] 0 0 [])
unfolding Messages.system lookup decode_system
system-parses event h = (
  hdr b'S' ++ event,
  rw (pack_c_lem event h),
  parse_layout b'S' 12 decode_system event (message Kind.system 0 0 [] 0 0 []) refl (omega arith)
      refl,
)

-- Every message that a builder packs from numbers that fit their fields, an ASCII side and an
-- eight-letter ASCII symbol is packed without an exception, and the parser reads back exactly the
-- fields that it keeps.
pub parse_message-build : (q : Build) → IsInRange q → ParsesBack (build q) (meaning q)
parse_message-build (add id side shares symbol price mpid) h =
    add-parses id side shares symbol price mpid h
parse_message-build (exec id shares) h = exec-parses id shares h
parse_message-build (exec_price id shares printable price) h =
    exec_price-parses id shares printable price h
parse_message-build (cancel id shares) h = cancel-parses id shares h
parse_message-build (delete id) h = delete-parses id h
parse_message-build (replace id new_id shares price) h = replace-parses id new_id shares price h
parse_message-build (system event) h = system-parses event h
