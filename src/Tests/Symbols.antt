-- ===== src/Tests/Symbols.antt =====
-- scripts/gen_symbols.py on a few arguments.
use hft_rtl.Prelude.{◌≡◌, ◌⊎◌, refl, some, none, [], ◌∷◌, arith, Text, text_eq}
use hft_rtl.Prelude.Bytes.{ljust_with}
use hft_rtl.Prelude.Strip.{lstrip, rstrip, strip}
use hft_rtl.Symbols.{
  split, stripped, digits_from, join_with, items_from, first_long, Complaint, generate, main,
  symbols_of, str,
}
use hft_rtl.Symbols.Decimal.{read_number}
use hft_rtl.Symbols.Header.{NoneTwice, IsHeaded, IsRefused, main-Answers}
use hft_rtl.Symbols.Reader.{strip_prefix, read_slots, read_line, read_header, slots_from}

program : Unit {0}
unfolding ljust_with lstrip rstrip strip split stripped digits_from join_with items_from first_long
    generate main text_eq NoneTwice read_number strip_prefix read_slots read_line read_header
    slots_from
program = tt

abbrev prog : Text
prog = b'g' ∷ b'e' ∷ b'n' ∷ []

abbrev arg : Text
arg = b'S' ∷ b'P' ∷ b'Y' ∷ b',' ∷ b' ' ∷ b',' ∷ b'Q' ∷ b'Q' ∷ b'Q' ∷ b' ' ∷ []

symbols_of-arg : symbols_of arg ≡ (b'S' ∷ b'P' ∷ b'Y' ∷ []) ∷ (b'Q' ∷ b'Q' ∷ b'Q' ∷ []) ∷ []
unfolding program
symbols_of-arg = refl

str-digits : str 1207 ≡ b'1' ∷ b'2' ∷ b'0' ∷ b'7' ∷ []
unfolding program
str-digits = refl

code-arg : (main (prog ∷ arg ∷ [])).code ≡ 0
unfolding program
code-arg = refl

read_header-main :
    read_header (main (prog ∷ arg ∷ [])).out
    ≡ some (
        (0, b'S' ∷ b'P' ∷ b'Y' ∷ b' ' ∷ b' ' ∷ b' ' ∷ b' ' ∷ b' ' ∷ [])
        ∷ (1, b'Q' ∷ b'Q' ∷ b'Q' ∷ b' ' ∷ b' ' ∷ b' ' ∷ b' ' ∷ b' ' ∷ [])
        ∷ [])
unfolding program
read_header-main = refl

err-long :
    (main (
      prog
      ∷ (b'S' ∷ b'P' ∷ b'Y' ∷ b',' ∷ b'L' ∷ b'O' ∷ b'N' ∷ b'G' ∷ b'S' ∷ b'Y' ∷ b'M' ∷ b'B' ∷ b'O'
          ∷ [])
      ∷ [])).err
    ≡ some (Complaint.too_long (b'L' ∷ b'O' ∷ b'N' ∷ b'G' ∷ b'S' ∷ b'Y' ∷ b'M' ∷ b'B' ∷ b'O' ∷ []))
unfolding program
err-long = refl

code-usage : (main (prog ∷ [])).code ≡ 2
unfolding program
code-usage = refl

-- Without a symbol the array begins with a comma.
read_header-nothing :
    ((main (prog ∷ (b',' ∷ []) ∷ [])).code ≡ 0)
    × (read_header (main (prog ∷ (b',' ∷ []) ∷ [])).out ≡ none)
unfolding program
read_header-nothing = (refl, refl)

main-Answers_example :
    IsHeaded (symbols_of arg) (main (prog ∷ arg ∷ []))
    ⊎ IsRefused (symbols_of arg) (main (prog ∷ arg ∷ []))
unfolding program
main-Answers_example = main-Answers prog arg (omega arith) ((refl, tt), (tt, tt))
