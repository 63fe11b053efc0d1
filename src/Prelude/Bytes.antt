-- ===== src/Prelude/Bytes.antt =====
-- Byte strings, and big-endian integers as `struct` packs and unpacks them.
use native.Mathlib.Nat.{pow-suc, pow-succ', mul_assoc, mul-le-mul_right}
use mathlib.Core.List.{foldl}
use hft_rtl.Prelude.Result.{Result, ok, raise, struct_error, unicode_error}
use hft_rtl.Prelude.{
  ℕ, zero, suc, ◌+◌, ◌*◌, ◌/◌, ◌%◌, ◌^◌, ◌<◌, ◌≤◌, ◌≡◌, refl, sym, ap, ◌∙◌, List, [], ◌∷◌, ◌++◌,
  arith, ltb, if◌then◌else◌, length, length-append, replicate, ◌-◌, take, drop, Text, Bool, true,
  ◌&&◌, length-take, length-replicate, take-append_exact, drop-append_exact, All,
}

abbrev pub Bytes : Type 0
Bytes = List ℕ

abbrev pub IsByte : ℕ → Type 0
IsByte b = b < 256

-- The `w` low bytes of `n`, most significant first.
unfoldable pub be : ℕ → ℕ → Bytes
be zero n = []
be (suc w) n = be w (n / 256) ++ (n % 256) ∷ []

abbrev pub push_byte : ℕ → ℕ → ℕ
push_byte acc b = acc * 256 + b

-- `int.from_bytes(_, 'big')`, as `struct.unpack` reads a field.
unfoldable pub of_be : Bytes → ℕ
of_be = foldl push_byte 0

-- `struct.pack` of one unsigned field of `w` bytes.
unfoldable pub pack_be : ℕ → ℕ → Result Bytes
pack_be w n = if ltb n (256 ^ w) then ok (be w n) else raise struct_error

foldl-append_one :
    (xs : Bytes) (acc b : ℕ) → foldl push_byte acc (xs ++ b ∷ []) ≡ foldl push_byte acc xs * 256 + b
foldl-append_one [] acc b = refl
foldl-append_one (x ∷ xs) acc b = foldl-append_one xs (push_byte acc x) b

pub of_be-be : (w n : ℕ) → n < 256 ^ w → of_be (be w n) ≡ n
unfolding of_be be
of_be-be zero n h = omega arith
of_be-be (suc w) n h =
    foldl-append_one (be w (n / 256)) 0 (n % 256)
    ∙ ap (λ (t : ℕ). t * 256 + n % 256) (of_be-be w (n / 256) (omega (arith, pow-suc 256 w)))
    ∙ omega arith

pub length-be : (w n : ℕ) → length (be w n) ≡ w
unfolding be
length-be zero n = refl
length-be (suc w) n = length-append (be w (n / 256)) _ ∙ omega (arith, length-be w (n / 256))

pub pack_be_lem : (w n : ℕ) → n < 256 ^ w → pack_be w n ≡ ok (be w n)
unfolding pack_be
pack_be_lem w n h = ground arith

-- `s.ljust(w, fill)`
unfoldable pub ljust_with : ℕ → ℕ → Bytes → Bytes
ljust_with fill w s = s ++ replicate (w - length s) fill

-- `s.ljust(w)` on a `str`, which pads with spaces.
abbrev pub ljust : ℕ → Bytes → Bytes
ljust = ljust_with b' '

-- The first `w` bytes, and what follows them.
abbrev pub split_at : ℕ → Bytes → Bytes × Bytes
split_at w bs = (take w bs, drop w bs)

pub split_at-append : (w : ℕ) (xs ys : Bytes) → length xs ≡ w → split_at w (xs ++ ys) ≡ (xs, ys)
split_at-append w xs ys h = rw (take-append_exact w xs ys h, drop-append_exact w xs ys h)

-- `b.decode('ascii')` and `s.encode('ascii')`
unfoldable pub is_ascii : Bytes → Bool
is_ascii [] = true
is_ascii (b ∷ bs) = ltb b 128 && is_ascii bs

pub is_ascii-append :
    (s t : Bytes) → is_ascii s ≡ true → is_ascii t ≡ true → is_ascii (s ++ t) ≡ true
unfolding is_ascii
is_ascii-append [] t hs ht = ht
is_ascii-append (c ∷ s) t hs ht = ground (arith, is_ascii-append s t)

pub is_ascii-take : (n : ℕ) (t : Bytes) → is_ascii t ≡ true → is_ascii (take n t) ≡ true
unfolding is_ascii
is_ascii-take zero t h = refl
is_ascii-take (suc n) [] h = refl
is_ascii-take (suc n) (c ∷ t) h = ground (arith, is_ascii-take n t)

pub is_ascii-replicate : (n c : ℕ) → c < 128 → is_ascii (replicate n c) ≡ true
unfolding is_ascii
is_ascii-replicate zero c h = refl
is_ascii-replicate (suc n) c h = ground (arith, is_ascii-replicate n c h)

-- A number that is read from bytes fits them.
foldl_lt :
    (bs : Bytes) (acc : ℕ) → All IsByte bs → foldl push_byte acc bs < (acc + 1) * 256 ^ length bs
foldl_lt [] acc h = omega arith
foldl_lt (b ∷ bs) acc (h, hs) =
    let rest = foldl_lt bs (push_byte acc b) hs in
    let less : push_byte acc b + 1 ≤ (acc + 1) * 256 = omega arith in
    let scaled : (push_byte acc b + 1) * 256 ^ length bs ≤ (acc + 1) * 256 * 256 ^ length bs =
      mul-le-mul_right (256 ^ length bs) less in
    let power : (acc + 1) * 256 * 256 ^ length bs ≡ (acc + 1) * 256 ^ suc (length bs) =
      mul_assoc (acc + 1) 256 (256 ^ length bs)
      ∙ ap (◌*◌ (acc + 1)) (sym (pow-succ' 256 (length bs))) in
    omega (arith, rest, scaled, power)

pub of_be_lt : (bs : Bytes) → All IsByte bs → of_be bs < 256 ^ length bs
unfolding of_be
of_be_lt bs h = omega (arith, foldl_lt bs 0 h)

unfoldable pub ascii : Bytes → Result Text
ascii bs = if is_ascii bs then ok bs else raise unicode_error

-- `struct` format `ws`: cut or filled with zeros to `w` bytes.
unfoldable pub pack_s : ℕ → Bytes → Bytes
pack_s w bs = take w (bs ++ replicate w 0)

pub pack_s_exact : (w : ℕ) (bs : Bytes) → length bs ≡ w → pack_s w bs ≡ bs
unfolding pack_s
pack_s_exact w bs h = take-append_exact w bs (replicate w 0) h

pub length-pack_s : (w : ℕ) (bs : Bytes) → length (pack_s w bs) ≡ w
unfolding pack_s
length-pack_s w bs =
    let filled = length-append bs (replicate w 0) in
    length-take w (bs ++ replicate w 0) ∙ omega (arith, filled, length-replicate {A = ℕ} w 0)

-- `b''.join(packets)`
unfoldable pub join : List Bytes → Bytes
join [] = []
join (bs ∷ rest) = bs ++ join rest
