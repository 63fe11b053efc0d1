-- ===== src/Fuzz/Built.antt =====
-- Messages that a builder of model/fuzz_stream.py makes, and the symbols in them.
use hft_rtl.Prelude.{
  ℕ, ◌-◌, ◌≡◌, true, some, arith, Text, length, take, length-append, length-take, length-replicate,
  replicate,
}
use hft_rtl.Prelude.Bytes.{
  is_ascii-append, is_ascii-take, is_ascii-replicate, Bytes, ascii, is_ascii, ljust_with,
}
use hft_rtl.Prelude.Result.{ok, Returns}
use hft_rtl.Itch.{parse_message}
use hft_rtl.Fuzz.RoundTrip.{Build, build, meaning, IsInRange, parse_message-build}
use hft_rtl.Fuzz.Sizes.{IsSmall, EventIsBytes, IsSmall-build}
use hft_rtl.Fuzz.Generate.{sym8}

-- The message comes from a builder, on numbers that fit their fields, the parser reads it back, and
-- it is 40 bytes or fewer.
abbrev pub IsBuilt : Bytes → Type 0
IsBuilt m =
    (q : Build) × IsInRange q
    × (build q ≡ ok m)
    × (parse_message m ≡ ok (some (meaning q)))
    × IsSmall m

pub build-IsBuilt : (q : Build) → IsInRange q → EventIsBytes q → Returns IsBuilt (build q)
build-IsBuilt q h e =
    let (m, made, read) = parse_message-build q h in
    rw made (q, h, made, read, IsSmall-build q m h e made)

abbrev pub IsAscii : Text → Type 0
IsAscii t = is_ascii t ≡ true

abbrev pub IsSymbol : Bytes → Type 0
IsSymbol s = (length s ≡ 8) × IsAscii s

pub sym8-IsSymbol : (name : Text) → IsAscii name → Returns IsSymbol (sym8 name)
unfolding sym8 ascii ljust_with
sym8-IsSymbol name h =
    let cut = length-take 8 name in
    let filled = length-append (take 8 name) (replicate (8 - length (take 8 name)) b' ') in
    let fill = length-replicate {A = ℕ} (8 - length (take 8 name)) b' ' in
    rw h (
      omega (arith, cut, filled, fill),
      is_ascii-append (take 8 name) (replicate (8 - length (take 8 name)) b' ')
          (is_ascii-take 8 name h)
          (is_ascii-replicate (8 - length (take 8 name)) b' ' (omega arith)),
    )
