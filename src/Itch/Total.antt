-- ===== src/Itch/Total.antt =====
-- `parse_message` of model/itch.py raises only on an add whose side or symbol is not ASCII.
use hft_rtl.Prelude.{
  ℕ, ◌+◌, ◌^◌, ◌<◌, ◌≡◌, refl, inl, inr, Bool, true, false, not, ◌&&◌, ◌||◌, Option, none, some, [],
  ◌∷◌, arith, nat_eq, nat_eq_iff, length, length-take, length-drop, take, drop, All, All-take,
  All-drop, Key, nat_key, Bool-cases, Option-cases,
}
use hft_rtl.Prelude.Bytes.{Bytes, IsByte, of_be, of_be_lt, is_ascii, ascii}
use hft_rtl.Prelude.Dict.{Dict, lookup}
use hft_rtl.Prelude.Result.{Result, ok, Returns, Returns-bind}
use hft_rtl.Itch.Message.{DecodedMsg, Kind}
use hft_rtl.Itch.{
  hdr_len, sized, decode_add, decode_shares, decode_delete, decode_replace, decode_system, layouts,
  parse_message,
}

All-lookup {ℓ} :
    {K V : Type ℓ} ⦃e : Key K⦄ (P : K × V → Type 0) (k : K) (v : V) (d : Dict K V)
    → All P d
    → lookup k d ≡ some v
    → P (k, v)
unfolding lookup
All-lookup P k v [] h e = cc
All-lookup ⦃e = key⦄ P k v ((j, w) ∷ d) (p, h) e = elim (Bool-cases (key.same k j)) [
  | inl same ↦
      let is : k ≡ j = (key.same_iff k j).0 same in
      let found : some w ≡ some v = rw same at e in let value : w ≡ v = cc in rw (is, ← value) p
  | inr other ↦ All-lookup P k v d h (rw other at e)
]

-- The 25 bytes of an add after the header, its side and its symbol.
abbrev add_fields : Bytes → Bytes
add_fields payload = take 25 (drop hdr_len payload)

abbrev add_side : Bytes → Bytes
add_side payload = take 1 (drop 8 (add_fields payload))

abbrev add_symbol : Bytes → Bytes
add_symbol payload = take 8 (drop 4 (drop 1 (drop 8 (add_fields payload))))

abbrev is_add : Bytes → Bool
is_add [] = false
is_add (t ∷ rest) = nat_eq t b'A' || nat_eq t b'F'

-- The payload is no add, or its side and its symbol are ASCII.
abbrev pub IsReadable : Bytes → Type 0
IsReadable payload =
    (not (is_add payload) || (is_ascii (add_side payload) && is_ascii (add_symbol payload))) ≡ true

abbrev IsCheap : DecodedMsg → Type 0
IsCheap msg = msg.price < 256 ^ 4

-- Where nothing or a message is parsed, its price fits four bytes.
abbrev pub IfCheap : Option DecodedMsg → Type 0
IfCheap none = Unit
IfCheap (some msg) = IsCheap msg

-- A decoder raises nothing on the payloads that are given to it.
abbrev Decodes : ℕ × (ℕ × (Bytes → Result DecodedMsg)) → Type 0
Decodes entry =
    (rest : Bytes)
    → length (entry.0 ∷ rest) ≡ entry.1.0
    → All IsByte (entry.0 ∷ rest)
    → IsReadable (entry.0 ∷ rest)
    → Returns IsCheap (entry.1.1 (drop hdr_len (entry.0 ∷ rest)))

sized-take : (n : ℕ) (body : Bytes) → n < length body + 1 → sized n (take n body) ≡ ok (take n body)
unfolding sized
sized-take n body h =
    let size = length-take n body in
    let fits : nat_eq (length (take n body)) n ≡ true = ground (arith, size) in rw fits refl

four_bytes : (bs : Bytes) → length bs ≡ 4 → All IsByte bs → of_be bs < 256 ^ 4
four_bytes bs h all = let below : of_be bs < 256 ^ 4 = rw h at (of_be_lt bs all) in below

decode_add-IsCheap :
    (t : ℕ) (rest : Bytes)
    → 36 < length (t ∷ rest) + 1
    → All IsByte (t ∷ rest)
    → is_ascii (add_side (t ∷ rest)) ≡ true
    → is_ascii (add_symbol (t ∷ rest)) ≡ true
    → Returns IsCheap (decode_add (drop hdr_len (t ∷ rest)))
unfolding decode_add ascii
decode_add-IsCheap t rest h all side symbol =
    let body = drop hdr_len (t ∷ rest) in
    let fields = take 25 body in
    let size = length-drop hdr_len (t ∷ rest) in
    let cut = length-take 25 body in
    let price = drop 8 (drop 4 (drop 1 (drop 8 fields))) in
    let count : length price ≡ 4 = omega (
      arith,
      size,
      cut,
      length-drop 8 (drop 4 (drop 1 (drop 8 fields))),
      length-drop 4 (drop 1 (drop 8 fields)),
      length-drop 1 (drop 8 fields),
      length-drop 8 fields,
    ) in
    let bytes = All-drop IsByte 8 (drop 4 (drop 1 (drop 8 fields))) (
      All-drop IsByte 4 (drop 1 (drop 8 fields)) (
        All-drop IsByte 1 (drop 8 fields) (
          All-drop IsByte 8 fields
            (All-take IsByte 25 body (All-drop IsByte hdr_len (t ∷ rest) all))))) in
    rw (sized-take 25 body (omega (arith, size)), side, symbol) (four_bytes price count bytes)

decode_shares-IsCheap :
    (kind : Kind) (t : ℕ) (rest : Bytes)
    → 23 < length (t ∷ rest) + 1
    → Returns IsCheap (decode_shares kind (drop hdr_len (t ∷ rest)))
unfolding decode_shares
decode_shares-IsCheap kind t rest h =
    let body = drop hdr_len (t ∷ rest) in
    let size = length-drop hdr_len (t ∷ rest) in
    rw (sized-take 12 body (omega (arith, size))) (omega arith)

decode_delete-IsCheap :
    (t : ℕ) (rest : Bytes)
    → 19 < length (t ∷ rest) + 1
    → Returns IsCheap (decode_delete (drop hdr_len (t ∷ rest)))
unfolding decode_delete
decode_delete-IsCheap t rest h =
    let body = drop hdr_len (t ∷ rest) in
    let size = length-drop hdr_len (t ∷ rest) in
    rw (sized-take 8 body (omega (arith, size))) (omega arith)

decode_replace-IsCheap :
    (t : ℕ) (rest : Bytes)
    → 35 < length (t ∷ rest) + 1
    → All IsByte (t ∷ rest)
    → Returns IsCheap (decode_replace (drop hdr_len (t ∷ rest)))
unfolding decode_replace
decode_replace-IsCheap t rest h all =
    let body = drop hdr_len (t ∷ rest) in
    let fields = take 24 body in
    let size = length-drop hdr_len (t ∷ rest) in
    let cut = length-take 24 body in
    let price = drop 4 (drop 8 (drop 8 fields)) in
    let count : length price ≡ 4 = omega (
      arith,
      size,
      cut,
      length-drop 4 (drop 8 (drop 8 fields)),
      length-drop 8 (drop 8 fields),
      length-drop 8 fields,
    ) in
    let bytes = All-drop IsByte 4 (drop 8 (drop 8 fields)) (
      All-drop IsByte 8 (drop 8 fields) (
        All-drop IsByte 8 fields
          (All-take IsByte 24 body (All-drop IsByte hdr_len (t ∷ rest) all)))) in
    rw (sized-take 24 body (omega (arith, size))) (four_bytes price count bytes)

layouts-Decodes : All Decodes layouts
unfolding decode_system
layouts-Decodes = (
  (λ rest n all r. omega arith),
  (
    (λ rest n all r.
        decode_add-IsCheap b'A' rest (omega (arith, n)) all (ground (arith, r))
          (ground (arith, r))),
    (
      (λ rest n all r.
          decode_add-IsCheap b'F' rest (omega (arith, n)) all (ground (arith, r))
            (ground (arith, r))),
      (
        (λ rest n all r. decode_shares-IsCheap Kind.exec b'E' rest (omega (arith, n))),
        (
          (λ rest n all r. decode_shares-IsCheap Kind.exec b'C' rest (omega (arith, n))),
          (
            (λ rest n all r. decode_shares-IsCheap Kind.cancel b'X' rest (omega (arith, n))),
            (
              (λ rest n all r. decode_delete-IsCheap b'D' rest (omega (arith, n))),
              ((λ rest n all r. decode_replace-IsCheap b'U' rest (omega (arith, n)) all), tt),
            ),
          ),
        ),
      ),
    ),
  ),
)

pub parse_message-Returns :
    (payload : Bytes)
    → All IsByte payload
    → IsReadable payload
    → Returns IfCheap (parse_message payload)
unfolding parse_message
parse_message-Returns [] all r = tt
parse_message-Returns (t ∷ rest) all r = elim (Option-cases (lookup t layouts)) [
  | inl e ↦ rw (e, parse_message) tt
  | inr ((n, decoder), e) ↦ elim (Bool-cases (nat_eq (length (t ∷ rest)) n)) [
    | inl fits ↦
        rw (e, parse_message)
          (rw fits (
            Returns-bind IsCheap IfCheap (decoder (drop hdr_len (t ∷ rest))) _
              (All-lookup Decodes t (n, decoder) layouts layouts-Decodes e rest
                ((nat_eq_iff (length (t ∷ rest)) n).0 fits) all r)
              (λ msg cheap. cheap)))
    | inr other ↦ rw (e, parse_message) (rw other tt)
  ]
]
