-- ===== src/BinaryFile/Payloads.antt =====
-- What model/binaryfile.py reads from a file of bytes are byte strings of less than 65536 bytes.
use hft_rtl.Prelude.{
  ℕ, zero, suc, ◌+◌, ◌^◌, ◌<◌, ◌≡◌, inl, inr, Option, arith, ltb, length, length-take, take, drop,
  All, All-take, All-drop, Bool-cases,
}
use hft_rtl.Prelude.Bytes.{Bytes, IsByte, of_be, of_be_lt}
use hft_rtl.BinaryFile.{is_reached, read_from, read_messages}

abbrev pub IsPayload : Bytes → Type 0
IsPayload payload = All IsByte payload × (length payload < 256 ^ 2)

read_from-IsPayload :
    (fuel : ℕ) (limit : Option ℕ) (count : ℕ) (file : Bytes)
    → All IsByte file
    → All IsPayload (read_from fuel limit count file)
unfolding read_from
read_from-IsPayload zero limit count file h = tt
read_from-IsPayload (suc fuel) limit count file h =
    let hdr = take 2 file in
    let body = drop 2 file in
    let payload = take (of_be hdr) body in
    let rest =
      read_from-IsPayload fuel limit (count + 1) (drop (of_be hdr) body)
        (All-drop IsByte (of_be hdr) body (All-drop IsByte 2 file h)) in
    elim (Bool-cases (is_reached limit count)) [
      | inl e ↦ rw e tt
      | inr e ↦ elim (Bool-cases (ltb (length hdr) 2)) [
        | inl e' ↦ rw (e, e') tt
        | inr e' ↦ elim (Bool-cases (ltb (length payload) (of_be hdr))) [
          | inl e3 ↦ rw (e, e', e3) tt
          | inr e3 ↦
              let two : length hdr ≡ 2 = ground (arith, length-take 2 file) in
              let small : of_be hdr < 256 ^ 2 =
                rw two at (of_be_lt hdr (All-take IsByte 2 file h)) in
              rw (e, e', e3)
                (
                  (
                    All-take IsByte (of_be hdr) body (All-drop IsByte 2 file h),
                    omega (arith, length-take (of_be hdr) body, small),
                  ),
                  rest,
                )
        ]
      ]
    ]

pub read_messages-IsPayload :
    (limit : Option ℕ) (file : Bytes) → All IsByte file → All IsPayload (read_messages limit file)
unfolding read_messages
read_messages-IsPayload limit file h = read_from-IsPayload (length file) limit 0 file h
