-- ===== src/Tests/Traces.antt =====
-- model/compare_traces.py on concrete traces. A line is one code point here, and `loads` a table.
use hft_rtl.Prelude.{
  ℕ, ◌≡◌, ◌≤◌, ◌↔◌, refl, zero, suc, ◌+◌, true, false, arith, List, [], ◌∷◌, All, text_key, Option,
  some, none, Text, if◌then◌else◌, replicate, text_eq, length, get_elem?,
}
use hft_rtl.Prelude.Dict.{lookup}
use hft_rtl.Prelude.Int.{ℤ, pos}
use hft_rtl.Prelude.Result.{Result, raise, ok, overflow_error, recursion_error, value_error}
use hft_rtl.Prelude.Strip.{lstrip, rstrip, strip}
use hft_rtl.Book.{Level}
use hft_rtl.Trace.{Line}
use hft_rtl.Traces.Json.{
  Value, integer, float, infinity, boolean, text, array, object, Items, nil, item, end, field, pair,
  count_items, count_fields, find_field, value_eq, fields_eq, int_of, level_of, levels_of,
}
use hft_rtl.Traces.{
  key_n, key_symbol_idx, key_bid, key_ask, normal_side, normal_value, normal_fields, normalize,
  Outcome, Detail, pair_detail, check_line, read_lines, compare_from, compare_files, verdict, Exit,
  exit_with, vacuous, matching, main,
}
use hft_rtl.Traces.Match.{Matches, Passes, main-Matches}
use hft_rtl.Traces.Updates.{level_values, line_fields, AllShow, main-AllShow}
use hft_rtl.Traces.Reports.{compare_files-reports}
use hft_rtl.Traces.Finite.{IsFinite, ItemsFinite, IsSafe, main-Returns}
use hft_rtl.Traces.First.{IsGood, DivergesAt, compare_files-First}

program : Unit {0}
unfolding text_eq lookup lstrip rstrip strip count_items count_fields find_field value_eq fields_eq
    int_of level_of levels_of normal_side normal_value normal_fields normalize check_line read_lines
    compare_from compare_files verdict main level_values line_fields IsFinite
program = tt

abbrev no_int : Text → Option ℤ
no_int t = none

abbrev level : ℕ → Level
level p = record { price = p; shares = 100 }

abbrev line : ℕ → ℕ → Line
line n p = record {
  n = n;
  symbol_idx = 0;
  bid = replicate 8 (level p);
  ask = replicate 8 (level (p + 1));
}

abbrev repeated : ℕ → Value → Items
repeated zero v = nil
repeated (suc n) v = item v (repeated n v)

-- An update whose bids are what is given.
abbrev with_bids : Value → Value
with_bids v = object (
    field key_n (integer (pos 7)) (
      field key_symbol_idx (integer (pos 0))
        (field key_bid v (field key_ask (array (repeated 8 (pair (pos 1) (pos 1)))) end))))

abbrev with_further : Value → Value
with_further v = object (
    field key_n (integer (pos 7)) (
      field key_symbol_idx (integer (pos 0))
        (field key_bid v (field key_ask v (field (b'x' ∷ []) (text []) end)))))

abbrev raw : ℕ → Text
raw k = k ∷ []

-- What is in no table is no JSON, and one line is nested too deep.
abbrev table : List (Text × Value)
table =
    (raw 65, object (line_fields (line 1 500) none))
    ∷ (raw 66, object (line_fields (line 1 500) (some (integer (pos 12)))))
    ∷ (raw 67, object (line_fields (line 2 600) none))
    ∷ (raw 68, object (line_fields (line 2 601) (some (integer (pos 9)))))
    ∷ (
      raw 69,
      with_bids (array (repeated 8 (array (item (float (pos 3) 1) (item (boolean true) nil))))),
    )
    ∷ (raw 70, with_bids (array (repeated 8 (pair (pos 1) (pos 1)))))
    ∷ (
      raw 71,
      with_bids (array (repeated 8 (array (item (infinity false) (item (integer (pos 1)) nil))))),
    )
    ∷ (raw 73, with_further (array (repeated 8 (pair (pos 1) (pos 1)))))
    ∷ (raw 72, with_bids (array (repeated 7 (pair (pos 1) (pos 1)))))
    ∷ []

abbrev loads : Text → Result Value
loads t =
    if text_eq t (raw 91)
    then raise recursion_error
    else elim (lookup t table) [ none ↦ raise value_error | some v ↦ ok v ]

-- A line in the file ends with a line feed, and blank lines do not count.
abbrev in_file : ℕ → Text
in_file k = b' ' ∷ k ∷ 10 ∷ []

abbrev blank : Text
blank = 32 ∷ 10 ∷ []

abbrev golden_file : List Text
golden_file = in_file 65 ∷ blank ∷ in_file 67 ∷ []

abbrev rtl_file : List Text
rtl_file = in_file 66 ∷ in_file 67 ∷ []

abbrev other_file : List Text
other_file = in_file 66 ∷ in_file 68 ∷ []

latency_is_ignored :
    main no_int loads 5 2 (some golden_file) (some rtl_file) ≡ ok (exit_with 0 (matching 2))
unfolding program
latency_is_ignored = refl

too_few : main no_int loads 5 3 (some golden_file) (some rtl_file) ≡ ok (exit_with 1 (vacuous 2 3))
unfolding program
too_few = refl

-- A price of 1.5 is a price of 1 here, and `true` a number of shares.
fraction_is_dropped :
    main no_int loads 5 1 (some (raw 69 ∷ [])) (some (raw 70 ∷ [])) ≡ ok (exit_with 0 (matching 1))
unfolding program
fraction_is_dropped = refl

infinite_price_raises :
    main no_int loads 5 1 (some (raw 71 ∷ [])) (some (raw 70 ∷ [])) ≡ raise overflow_error
unfolding program
infinite_price_raises = refl

-- A further key is compared like the required ones.
further_key_matches :
    main no_int loads 5 1 (some (raw 73 ∷ [])) (some (raw 73 ∷ [])) ≡ ok (exit_with 0 (matching 1))
unfolding program
further_key_matches = refl

seven_levels :
    (o : Outcome) × (compare_files no_int loads 5 (raw 72 ∷ []) (raw 72 ∷ []) ≡ ok o)
    × (o.mismatches ≡ 1)
unfolding program
seven_levels = (_, refl, refl)

deep_line_raises :
    main no_int loads 5 1 (some (raw 91 ∷ [])) (some (raw 70 ∷ [])) ≡ raise recursion_error
unfolding program
deep_line_raises = refl

main-Matches_example :
    ((main no_int loads 5 2 (some golden_file) (some rtl_file) ≡ ok (exit_with 0 (matching 2))) ↔ (
      Matches no_int loads (read_lines golden_file) (read_lines rtl_file)
      × (length (read_lines golden_file) ≡ 2)
      × (2 ≤ 2)))
    × (Passes no_int loads 5 2 golden_file rtl_file ↔ (
        Matches no_int loads (read_lines golden_file) (read_lines rtl_file)
        × (2 ≤ length (read_lines golden_file))))
main-Matches_example = main-Matches no_int loads 5 2 golden_file rtl_file 2

abbrev two_lines : List Line
two_lines = line 1 500 ∷ line 2 600 ∷ []

abbrev other_lines : List Line
other_lines = line 1 500 ∷ line 2 601 ∷ []

golden-AllShow : AllShow no_int loads (read_lines golden_file) two_lines
unfolding program
golden-AllShow = ((none, refl), (refl, refl), ((none, refl), (refl, refl), tt))

other-AllShow : AllShow no_int loads (read_lines other_file) other_lines
unfolding program
other-AllShow = (
  (some (integer (pos 12)), refl),
  (refl, refl),
  ((some (integer (pos 9)), refl), (refl, refl), tt),
)

main-AllShow_example :
    (main no_int loads 5 2 (some golden_file) (some other_file) ≡ ok (exit_with 0 (matching 2)))
    ↔ ((two_lines ≡ other_lines) × (length two_lines ≡ 2) × (2 ≤ 2))
main-AllShow_example =
    main-AllShow no_int loads 5 2 2 golden_file other_file two_lines other_lines golden-AllShow
      other-AllShow

abbrev divergence : Detail
divergence = pair_detail 1 (raw 67) (raw 68)

abbrev diverged : Outcome
diverged = record {
  compared = 1;
  mismatches = 1;
  first_mismatch = some divergence;
  matched_before_first = 1;
  reports = divergence ∷ [];
}

other_diverges : compare_files no_int loads 5 golden_file other_file ≡ ok diverged
unfolding program
other_diverges = refl

compare_files-reports_example :
    (length diverged.reports ≡ 1) × (1 ≤ 5) × (get_elem? diverged.reports 0 ≡ some divergence)
compare_files-reports_example =
    compare_files-reports no_int loads 5 golden_file other_file diverged (omega arith)
      other_diverges

golden-IsGood : All (IsGood no_int loads) (read_lines golden_file)
unfolding program
golden-IsGood = ((line_fields (line 1 500) none, refl), ((line_fields (line 2 600) none, refl), tt))

other-IsGood : All (IsGood no_int loads) (read_lines other_file)
unfolding program
other-IsGood = ((line_fields (line 1 500) none, refl), ((line_fields (line 2 601) none, refl), tt))

compare_files-First_example :
    (diverged.matched_before_first ≡ 1)
    × DivergesAt no_int loads 1 (read_lines golden_file) (read_lines other_file)
compare_files-First_example =
    compare_files-First no_int loads 5 golden_file other_file diverged divergence golden-IsGood
      other-IsGood other_diverges refl

-- A line that is no JSON and one with seven levels.
abbrev bad_file : List Text
bad_file = raw 72 ∷ raw 90 ∷ []

repeated-ItemsFinite : (n : ℕ) (v : Value) → IsFinite v → ItemsFinite (repeated n v)
unfolding IsFinite
repeated-ItemsFinite zero v h = tt
repeated-ItemsFinite (suc n) v h = (h, repeated-ItemsFinite n v h)

abbrev seven : Value
seven = with_bids (array (repeated 7 (pair (pos 1) (pos 1))))

seven-IsFinite : IsFinite seven
unfolding IsFinite
seven-IsFinite = (
  tt,
  (
    tt,
    (
      repeated-ItemsFinite 7 (pair (pos 1) (pos 1)) (tt, (tt, tt)),
      (repeated-ItemsFinite 8 (pair (pos 1) (pos 1)) (tt, (tt, tt)), tt),
    ),
  ),
)

seven-IsSafe : IsSafe no_int loads (raw 72)
unfolding program
seven-IsSafe = seven-IsFinite

unread-IsSafe : IsSafe no_int loads (raw 90)
unfolding program
unread-IsSafe = refl

main-Returns_example : (e : Exit) × (main no_int loads 5 0 (some bad_file) (some bad_file) ≡ ok e)
unfolding read_lines strip rstrip lstrip
main-Returns_example =
    main-Returns no_int loads 5 0 bad_file bad_file (seven-IsSafe, (unread-IsSafe, tt))
      (seven-IsSafe, (unread-IsSafe, tt))
