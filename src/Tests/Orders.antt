-- ===== src/Tests/Orders.antt =====
-- model/compare_orders.py on concrete streams. A line is one code point here, and `loads` a table.
use hft_rtl.Prelude.{
  List, All, text_key, ℕ, ◌≡◌, ◌≤◌, ◌↔◌, refl, Option, some, [], ◌∷◌, Text, replicate, text_eq,
  length,
}
use hft_rtl.Prelude.Dict.{lookup}
use hft_rtl.Prelude.Int.{pos}
use hft_rtl.Orders.{
  Detail, pair_detail, integer, text, Parsed, object, fromhex, normalize, check_line, compare_from,
  compare_files, exit_code, key_n, key_raw,
}
use hft_rtl.Orders.First.{IsGood, DivergesAt, compare_files-DivergesAt}
use hft_rtl.Orders.Match.{Matches}
use hft_rtl.Orders.Command.{main, read_lines, printed_of, vacuous, matching, main-Matches_orders}
use hft_rtl.Prelude.Strip.{lstrip, rstrip, strip}

program : Unit {0}
unfolding text_eq lookup fromhex normalize check_line compare_from compare_files exit_code
program = tt

-- A frame of 51 equal bytes, in upper or lower case.
abbrev frame : ℕ → ℕ → Text
frame n digit = replicate n digit

abbrev order : ℕ → ℕ → Parsed
order n digit = object ((key_n, integer (pos n)) ∷ (key_raw, text (frame 102 digit)) ∷ [])

abbrev short_order : Parsed
short_order = object ((key_n, integer (pos 1)) ∷ (key_raw, text (frame 100 b'0')) ∷ [])

abbrev line : ℕ → Text
line k = k ∷ []

abbrev loads : Text → Option Parsed
loads raw = lookup raw (
    (line 1, order 1 b'A')
    ∷ (line 2, order 1 b'a')
    ∷ (line 3, order 2 b'0')
    ∷ (line 4, short_order)
    ∷ [])

blanks-fromhex : fromhex (b'0' ∷ b'a' ∷ b' ' ∷ b'F' ∷ b'f' ∷ b' ' ∷ []) ≡ some (10 ∷ 255 ∷ [])
unfolding program
blanks-fromhex = refl

matches_any_case :
    exit_code 2 (compare_files loads 5 (line 1 ∷ line 3 ∷ []) (line 2 ∷ line 3 ∷ [])) ≡ 0
unfolding program
matches_any_case = refl

too_few : exit_code 3 (compare_files loads 5 (line 1 ∷ line 3 ∷ []) (line 2 ∷ line 3 ∷ [])) ≡ 1
unfolding program
too_few = refl

-- After the last report the lines that are left are counted.
counts_the_rest : (compare_files loads 1 (line 1 ∷ line 3 ∷ []) (line 3 ∷ [])).mismatches ≡ 2
unfolding program
counts_the_rest = refl

-- A malformed line replaces what was reported before it: the first divergence is at 0.
forgets_reports :
    (compare_files loads 5
      (line 1 ∷ line 1 ∷ line 4 ∷ [])
      (line 3 ∷ line 1 ∷ line 1 ∷ [])).mismatches
    ≡ 1
unfolding program
forgets_reports = refl

abbrev golden_file : List Text
golden_file = (1 ∷ 10 ∷ []) ∷ (10 ∷ []) ∷ (3 ∷ 10 ∷ []) ∷ []

abbrev rtl_file : List Text
rtl_file = (2 ∷ 10 ∷ []) ∷ (3 ∷ 10 ∷ []) ∷ []

printed-files :
    main loads 5 3 (some golden_file) (some rtl_file) ≡ record { code = 1; printed = vacuous 2 3 }
unfolding program main read_lines printed_of lstrip rstrip strip
printed-files = refl

main-Matches_orders_example :
    (main loads 5 2 (some golden_file) (some rtl_file) ≡ record { code = 0; printed = matching 2 })
    ↔ (Matches loads (read_lines golden_file) (read_lines rtl_file)
        × (length (read_lines golden_file) ≡ 2)
        × (2 ≤ 2))
main-Matches_orders_example = main-Matches_orders loads 5 2 2 golden_file rtl_file

abbrev golden_lines : List Text
golden_lines = line 3 ∷ line 1 ∷ line 1 ∷ []

abbrev rtl_lines : List Text
rtl_lines = line 3 ∷ line 3 ∷ line 2 ∷ []

golden-IsGood : All (IsGood loads) golden_lines
unfolding program
golden-IsGood = (
  ((pos 2, replicate 51 0), refl),
  (((pos 1, replicate 51 170), refl), (((pos 1, replicate 51 170), refl), tt)),
)

rtl-IsGood : All (IsGood loads) rtl_lines
unfolding program
rtl-IsGood = (
  ((pos 2, replicate 51 0), refl),
  (((pos 2, replicate 51 0), refl), (((pos 1, replicate 51 170), refl), tt)),
)

abbrev first_line : Detail
first_line = pair_detail 1 (line 1) (line 3) (pos 1, replicate 51 170) (pos 2, replicate 51 0)

compare_files-DivergesAt_example :
    ((compare_files loads 5 golden_lines rtl_lines).matched_before_first ≡ 1)
    × DivergesAt loads 1 golden_lines rtl_lines
unfolding program
compare_files-DivergesAt_example =
    compare_files-DivergesAt loads 5 golden_lines rtl_lines first_line golden-IsGood rtl-IsGood refl
