-- ===== src/Fuzz/Sizes.antt =====
-- The messages that the builders of model/fuzz_stream.py make are byte strings of at most 40 bytes.
use hft_rtl.Prelude.{
  ℕ, zero, suc, ◌+◌, ◌/◌, ◌%◌, ◌≤◌, ◌≡◌, refl, inl, inr, Bool, true, [], ◌∷◌, ◌++◌, arith, ltb,
  nat_eq, if◌then◌else◌, length, length-append, length-replicate, replicate, All, All-append,
  All-replicate, Bool-cases, ◌^◌,
}
use hft_rtl.Prelude.Bytes.{Bytes, IsByte, be, length-be, pack_be, pack_s, pack_s_exact, is_ascii}
use hft_rtl.Prelude.Result.{ok, IfOk, IfOk-bind}
use hft_rtl.Fuzz.Messages
use hft_rtl.Fuzz.Messages.{hdr, pack_c}
use hft_rtl.Fuzz.RoundTrip.{
  Build, add, exec, exec_price, cancel, delete, replace, system, build, IsInRange,
}

-- `n` bytes.
record IsSized (n : ℕ) (bs : Bytes) : Type 0 where
  count : length bs ≡ n
  bytes : All IsByte bs

infixr 60 ◌then◌
◌then◌ : {m n : ℕ} {xs ys : Bytes} → IsSized m xs → IsSized n ys → IsSized (m + n) (xs ++ ys)
◌then◌ {xs} {ys} hx hy = record {
  count = omega (arith, length-append xs ys, hx.count, hy.count);
  bytes = All-append IsByte xs ys hx.bytes hy.bytes;
}

be-IsByte : (w n : ℕ) → All IsByte (be w n)
unfolding be
be-IsByte zero n = tt
be-IsByte (suc w) n =
    All-append IsByte (be w (n / 256)) (n % 256 ∷ []) (be-IsByte w (n / 256)) (omega arith, tt)

be-IsSized : (w n : ℕ) → IsSized w (be w n)
be-IsSized w n = record { count = length-be w n; bytes = be-IsByte w n }

zeros-IsSized : (n : ℕ) → IsSized n (replicate n 0)
zeros-IsSized n = record {
  count = length-replicate {A = ℕ} n 0;
  bytes = All-replicate IsByte n 0 (omega arith);
}

pack_be-IsSized : (w n : ℕ) → IfOk (IsSized w) (pack_be w n)
unfolding pack_be
pack_be-IsSized w n = elim (Bool-cases (ltb n (256 ^ w))) [
  | inl e ↦ rw e (be-IsSized w n)
  | inr e ↦ rw e tt
]

pack_c-IsSized : (c : Bytes) → All IsByte c → IfOk (IsSized 1) (pack_c c)
unfolding pack_c
pack_c-IsSized c h = elim (Bool-cases (nat_eq (length c) 1)) [
  | inl e ↦ rw e (record { count = ground arith; bytes = h })
  | inr e ↦ rw e tt
]

is_ascii-IsByte : (bs : Bytes) → is_ascii bs ≡ true → All IsByte bs
unfolding is_ascii
is_ascii-IsByte [] h = tt
is_ascii-IsByte (b ∷ bs) h = (ground arith, is_ascii-IsByte bs (ground arith))

hdr-IsSized : (t : ℕ) → IsByte t → IsSized 11 (hdr t)
hdr-IsSized t h =
    let rest = be-IsSized 2 1 then be-IsSized 2 0 then zeros-IsSized 6 in
    record { count = omega (arith, rest.count); bytes = (h, rest.bytes) }

-- A whole message.
abbrev pub IsSmall : Bytes → Type 0
IsSmall m = (length m ≤ 40) × All IsByte m

IsSmall-of_IsSized : (n : ℕ) (m : Bytes) → n ≤ 40 → IsSized n m → IsSmall m
IsSmall-of_IsSized n m h sized = (omega (arith, sized.count), sized.bytes)

-- What goes into a message is bytes: only for an event this is not said by its range.
abbrev pub EventIsBytes : Build → Type 0
EventIsBytes (system event) = All IsByte event
EventIsBytes _ = Unit

mpid-IsSized : IsSized 4 (b'M' ∷ b'P' ∷ b'I' ∷ b'D' ∷ [])
mpid-IsSized = record {
  count = refl;
  bytes = (omega arith, (omega arith, (omega arith, (omega arith, tt))));
}

add-IsSmall :
    (id : ℕ) (side : Bytes) (shares : ℕ) (symbol : Bytes) (price : ℕ) (mpid : Bool)
    → IsInRange (add id side shares symbol price mpid)
    → IfOk IsSmall (build (add id side shares symbol price mpid))
unfolding Messages.add
add-IsSmall id side shares symbol price mpid (hi, one, letter, hs, eight, spelled, hp) =
    IfOk-bind (IsSized 8) IsSmall (pack_be 8 id) _ (pack_be-IsSized 8 id) (λ id' i.
      IfOk-bind (IsSized 1) IsSmall (pack_c side) _
        (pack_c-IsSized side (is_ascii-IsByte side letter))
        (λ side' s.
          IfOk-bind (IsSized 4) IsSmall (pack_be 4 shares) _ (pack_be-IsSized 4 shares)
            (λ shares' n.
              IfOk-bind (IsSized 4) IsSmall (pack_be 4 price) _ (pack_be-IsSized 4 price)
                (λ price' p.
                  let symbol' : IsSized 8 (pack_s 8 symbol) =
                    rw (pack_s_exact 8 symbol eight)
                      (record { count = eight; bytes = is_ascii-IsByte symbol spelled }) in
                  let body = i then s then n then symbol' then p in
                  elim (Bool-cases mpid) [
                    | inl e ↦ rw e (
                        IsSmall-of_IsSized 40 _ (omega arith)
                          (hdr-IsSized b'F' (omega arith) then body then mpid-IsSized))
                    | inr e ↦ rw e (
                        IsSmall-of_IsSized 36 _ (omega arith)
                          (hdr-IsSized b'A' (omega arith) then body))
                  ]))))

build-IsSmall : (q : Build) → IsInRange q → EventIsBytes q → IfOk IsSmall (build q)
unfolding Messages.exec Messages.exec_price Messages.cancel Messages.delete Messages.replace
    Messages.system
build-IsSmall (add id side shares symbol price mpid) h e =
    add-IsSmall id side shares symbol price mpid h
build-IsSmall (exec id shares) h e =
    IfOk-bind (IsSized 8) IsSmall (pack_be 8 id) _ (pack_be-IsSized 8 id) (λ id' i.
      IfOk-bind (IsSized 4) IsSmall (pack_be 4 shares) _ (pack_be-IsSized 4 shares) (λ shares' n.
        IsSmall-of_IsSized 31 _ (omega arith)
          (hdr-IsSized b'E' (omega arith) then i then n then zeros-IsSized 8)))
build-IsSmall (exec_price id shares printable price) h e =
    IfOk-bind (IsSized 8) IsSmall (pack_be 8 id) _ (pack_be-IsSized 8 id) (λ id' i.
      IfOk-bind (IsSized 4) IsSmall (pack_be 4 shares) _ (pack_be-IsSized 4 shares) (λ shares' n.
        IfOk-bind (IsSized 1) IsSmall (pack_be 1 printable) _ (pack_be-IsSized 1 printable)
          (λ printable' b.
            IfOk-bind (IsSized 4) IsSmall (pack_be 4 price) _ (pack_be-IsSized 4 price) (λ price' p.
              IsSmall-of_IsSized 36 _ (omega arith) (
                hdr-IsSized b'C' (omega arith) then i then n then zeros-IsSized 8 then b then p)))))
build-IsSmall (cancel id shares) h e =
    IfOk-bind (IsSized 8) IsSmall (pack_be 8 id) _ (pack_be-IsSized 8 id) (λ id' i.
      IfOk-bind (IsSized 4) IsSmall (pack_be 4 shares) _ (pack_be-IsSized 4 shares) (λ shares' n.
        IsSmall-of_IsSized 23 _ (omega arith) (hdr-IsSized b'X' (omega arith) then i then n)))
build-IsSmall (delete id) h e =
    IfOk-bind (IsSized 8) IsSmall (pack_be 8 id) _ (pack_be-IsSized 8 id)
      (λ id' i. IsSmall-of_IsSized 19 _ (omega arith) (hdr-IsSized b'D' (omega arith) then i))
build-IsSmall (replace id new_id shares price) h e =
    IfOk-bind (IsSized 8) IsSmall (pack_be 8 id) _ (pack_be-IsSized 8 id) (λ id' i.
      IfOk-bind (IsSized 8) IsSmall (pack_be 8 new_id) _ (pack_be-IsSized 8 new_id) (λ new_id' j.
        IfOk-bind (IsSized 4) IsSmall (pack_be 4 shares) _ (pack_be-IsSized 4 shares) (λ shares' n.
          IfOk-bind (IsSized 4) IsSmall (pack_be 4 price) _ (pack_be-IsSized 4 price) (λ price' p.
            IsSmall-of_IsSized 35 _ (omega arith)
              (hdr-IsSized b'U' (omega arith) then i then j then n then p)))))
build-IsSmall (system event) h e =
    IfOk-bind (IsSized 1) IsSmall (pack_c event) _ (pack_c-IsSized event e)
      (λ event' b. IsSmall-of_IsSized 12 _ (omega arith) (hdr-IsSized b'S' (omega arith) then b))

-- What is built is small.
pub IsSmall-build :
    (q : Build) (m : Bytes) → IsInRange q → EventIsBytes q → build q ≡ ok m → IsSmall m
IsSmall-build q m h e made =
    let small : IfOk IsSmall (ok m) = rw made at (build-IsSmall q h e) in small
