-- ===== src/Symbols.antt =====
-- scripts/gen_symbols.py: the SystemVerilog header that lists the symbols of a replay, from the
-- arguments of the program to its exit code and the lines that it prints. What it prints on standard
-- error is a value.
pub mod Decimal
pub mod Reader
pub mod Header
use hft_rtl.Prelude.{
  ℕ, zero, suc, ◌+◌, ◌/◌, ◌%◌, Option, none, some, List, [], ◌∷◌, ◌++◌, map, ltb, nat_eq, Text,
  if◌then◌else◌, length,
}
use hft_rtl.Prelude.Bytes.{ljust}
use hft_rtl.Prelude.Strip.{strip}

abbrev pub num_symbols : ℕ
num_symbols = 16

-- The first part of `s.split(sep)` is longer by `c`.
abbrev longer : ℕ → List Text → List Text
longer c [] = (c ∷ []) ∷ []
longer c (part ∷ parts) = (c ∷ part) ∷ parts

-- `s.split(sep)` for a separator of one character.
unfoldable pub split : ℕ → Text → List Text
split sep [] = [] ∷ []
split sep (c ∷ cs) = let parts = split sep cs in if nat_eq c sep then [] ∷ parts else longer c parts

abbrev unless_empty : Text → List Text → List Text
unless_empty [] symbols = symbols
unless_empty (c ∷ cs) symbols = (c ∷ cs) ∷ symbols

-- `[s.strip() for s in parts if s.strip()]`
unfoldable pub stripped : List Text → List Text
stripped [] = []
stripped (s ∷ parts) = unless_empty (strip s) (stripped parts)

abbrev pub symbols_of : Text → List Text
symbols_of arg = stripped (split b',' arg)

-- `str(n)`: each turn writes the last digit.
unfoldable pub digits_from : ℕ → ℕ → Text
digits_from zero n = []
digits_from (suc fuel) n =
    let rest = digits_from fuel (n / 10) in
    if ltb n 10 then (48 + n) ∷ [] else rest ++ (48 + n % 10) ∷ []

abbrev pub str : ℕ → Text
str n = digits_from (n + 1) n

-- `sep.join(parts)`
unfoldable pub join_with : Text → List Text → Text
join_with sep [] = []
join_with sep (part ∷ []) = part
join_with sep (part ∷ next ∷ parts) = part ++ (sep ++ join_with sep (next ∷ parts))

abbrev pub item : ℕ → Text → Text
item i s = str i ++ (b':' ∷ b' ' ∷ b'"' ∷ ljust 8 s ++ b'"' ∷ [])

-- `enumerate(symbols)`, from the index `i` on.
unfoldable pub items_from : ℕ → List Text → List Text
items_from i [] = []
items_from i (s ∷ symbols) = item i s ∷ items_from (i + 1) symbols

-- `for s in symbols: if len(s) > 8: ...`
unfoldable pub first_long : List Text → Option Text
first_long [] = none
first_long (s ∷ symbols) = if ltb 8 (length s) then some s else first_long symbols

-- The messages on standard error.
pub data Complaint : Type 0 where
  usage : Complaint
  too_many : ℕ → Complaint
  too_long : Text → Complaint

pub record Exit : Type 0 where
  pub code : ℕ
  pub out : List Text
  pub err : Option Complaint

abbrev pub comma : Text
comma = b',' ∷ b' ' ∷ []

abbrev pub opening : Text
opening = b' ' ∷ b' ' ∷ b' ' ∷ b' ' ∷ 39 ∷ b'{' ∷ []

abbrev pub closing : Text
closing =
    b'd' ∷ b'e' ∷ b'f' ∷ b'a' ∷ b'u' ∷ b'l' ∷ b't' ∷ b':' ∷ b' ' ∷ b'6' ∷ b'4' ∷ 39 ∷ b'd' ∷ b'0'
    ∷ b'}' ∷ b';' ∷ []

abbrev pub last_line : List Text → Text
last_line symbols = opening ++ (join_with comma (items_from 0 symbols) ++ (comma ++ closing))

abbrev pub header : List Text → List Text
header symbols =
    (b'/' ∷ b'/' ∷ b' ' ∷ b'G' ∷ b'e' ∷ b'n' ∷ b'e' ∷ b'r' ∷ b'a' ∷ b't' ∷ b'e' ∷ b'd' ∷ b' ' ∷ b'b'
      ∷ b'y' ∷ b' ' ∷ b's' ∷ b'c' ∷ b'r' ∷ b'i' ∷ b'p' ∷ b't' ∷ b's' ∷ b'/' ∷ b'g' ∷ b'e' ∷ b'n'
      ∷ b'_' ∷ b's' ∷ b'y' ∷ b'm' ∷ b'b' ∷ b'o' ∷ b'l' ∷ b's' ∷ b'.' ∷ b'p' ∷ b'y' ∷ b' ' ∷ b'-'
      ∷ b'-' ∷ b' ' ∷ b'd' ∷ b'o' ∷ b' ' ∷ b'n' ∷ b'o' ∷ b't' ∷ b' ' ∷ b'e' ∷ b'd' ∷ b'i' ∷ b't'
      ∷ b'.' ∷ [])
    ∷ (b'/'
        ∷ b'/'
        ∷ b' '
        ∷ b'S'
        ∷ b'y'
        ∷ b'm'
        ∷ b'b'
        ∷ b'o'
        ∷ b'l'
        ∷ b's'
        ∷ b' '
        ∷ b'('
        ∷ b'i'
        ∷ b'n'
        ∷ b'd'
        ∷ b'e'
        ∷ b'x'
        ∷ b' '
        ∷ b'='
        ∷ b'='
        ∷ b' '
        ∷ b'b'
        ∷ b'o'
        ∷ b'o'
        ∷ b'k'
        ∷ b'_'
        ∷ b'i'
        ∷ b'd'
        ∷ b'x'
        ∷ b')'
        ∷ b':'
        ∷ b' '
        ∷ join_with (b',' ∷ []) symbols)
    ∷ (b'l' ∷ b'o' ∷ b'c' ∷ b'a' ∷ b'l' ∷ b'p' ∷ b'a' ∷ b'r' ∷ b'a' ∷ b'm' ∷ b' ' ∷ b'l' ∷ b'o'
        ∷ b'g' ∷ b'i' ∷ b'c' ∷ b' ' ∷ b'[' ∷ b'6' ∷ b'3' ∷ b':' ∷ b'0' ∷ b']' ∷ b' ' ∷ b'R' ∷ b'E'
        ∷ b'P' ∷ b'L' ∷ b'A' ∷ b'Y' ∷ b'_' ∷ b'S' ∷ b'Y' ∷ b'M' ∷ b'B' ∷ b'O' ∷ b'L' ∷ b'S' ∷ b' '
        ∷ b'[' ∷ b'b' ∷ b'o' ∷ b'o' ∷ b'k' ∷ b'_' ∷ b'p' ∷ b'k' ∷ b'g' ∷ b':' ∷ b':' ∷ b'N' ∷ b'U'
        ∷ b'M' ∷ b'_' ∷ b'S' ∷ b'Y' ∷ b'M' ∷ b'B' ∷ b'O' ∷ b'L' ∷ b'S' ∷ b']' ∷ b' ' ∷ b'=' ∷ [])
    ∷ last_line symbols
    ∷ []

abbrev pub failed : ℕ → Complaint → Exit
failed code err = record { code = code; out = []; err = some err }

abbrev pub checked : List Text → Option Text → Exit
checked symbols none = record { code = 0; out = header symbols; err = none }
checked symbols (some s) = failed 1 (Complaint.too_long s)

unfoldable pub generate : List Text → Exit
generate symbols =
    if ltb num_symbols (length symbols)
    then failed 1 (Complaint.too_many (length symbols))
    else checked symbols (first_long symbols)

unfoldable pub main : List Text → Exit
main (prog ∷ arg ∷ []) = generate (symbols_of arg)
main argv = failed 2 Complaint.usage
