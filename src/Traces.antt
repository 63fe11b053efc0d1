-- ===== src/Traces.antt =====
-- model/compare_traces.py: the comparison of the book trace of the model and that of the RTL, from the
-- lines of the two files to what is printed and the exit code. `loads` is `json.loads`, with the
-- exceptions that it raises: a `ValueError` on a text that is no JSON, and others, such as the
-- `RecursionError` on one that is nested too deep. `int_of_text` is `int()` of a `str`. The texts of
-- messages are data.
pub mod Json
pub mod Steps
pub mod Match
pub mod Updates
pub mod Reports
pub mod Finite
pub mod Replay
pub mod First
use hft_rtl.Prelude.{
  ℕ, ◌+◌, Bool, true, false, not, ◌&&◌, ◌||◌, Option, none, some, List, [], ◌∷◌, ◌++◌, ltb, leb,
  nat_eq, if◌then◌else◌, Text, text_eq, length,
}
use hft_rtl.Prelude.Result.{
  Error, Result, raise, ok, ◌>>=◌, index_error, key_error, struct_error, unicode_error,
  assertion_error, value_error, overflow_error,
}
use hft_rtl.Prelude.Int.{ℤ}
use hft_rtl.Prelude.Strip.{strip}
use hft_rtl.Traces.Json.{
  Value, null, boolean, integer, float, infinity, nan, text, array, object, Items, Fields, end,
  field, count_items, find_field, fields_eq, levels_of,
}

abbrev pub n_levels : ℕ
n_levels = 8

abbrev pub key_n : Text
key_n = b'n' ∷ []

abbrev pub key_symbol_idx : Text
key_symbol_idx = b's' ∷ b'y' ∷ b'm' ∷ b'b' ∷ b'o' ∷ b'l' ∷ b'_' ∷ b'i' ∷ b'd' ∷ b'x' ∷ []

abbrev pub key_bid : Text
key_bid = b'b' ∷ b'i' ∷ b'd' ∷ []

abbrev pub key_ask : Text
key_ask = b'a' ∷ b's' ∷ b'k' ∷ []

abbrev pub key_lat : Text
key_lat = b'l' ∷ b'a' ∷ b't' ∷ []

abbrev pub required_fields : List Text
required_fields = key_n ∷ key_symbol_idx ∷ key_bid ∷ key_ask ∷ []

-- What a `TraceShapeError` says.
pub data Shape : Type 0 where
  non_object : Shape
  missing_fields : List Text → Shape
  wrong_depth : Text → Option ℕ → Shape
  no_levels : Text → Shape

pub data Problem : Type 0 where
  bad_shape : Shape → Problem
  invalid_json : Problem

-- A value, an exception that the loop catches, or one that it does not.
pub data Checked (A : Type 0) : Type 0 where
  problem : Problem → Checked A
  uncaught : Error → Checked A
  fine : A → Checked A

abbrev pub and_then : {A B : Type 0} → Checked A → (A → Checked B) → Checked B
and_then (problem p) next = problem p
and_then (uncaught e) next = uncaught e
and_then (fine a) next = next a

-- `except (TypeError, ValueError)`, which lets an `OverflowError` pass.
abbrev pub caught : {A : Type 0} → Text → Result A → Checked A
caught key (ok a) = fine a
caught key (raise overflow_error) = uncaught overflow_error
caught key (raise _) = problem (bad_shape (no_levels key))

abbrev pub missing : Fields → List Text → List Text
missing fields [] = []
missing fields (k ∷ ks) = elim (find_field k fields) [
  | none ↦ k ∷ missing fields ks
  | some v ↦ missing fields ks
]

-- `if missing: raise ...`
abbrev pub if_complete : List Text → Checked Fields → Checked Fields
if_complete [] rest = rest
if_complete (k ∷ ks) rest = problem (bad_shape (missing_fields (k ∷ ks)))

module _ (int_of_text : Text → Option ℤ) where
  -- The levels of one side.
  unfoldable pub normal_side : Text → Value → Checked Value
  normal_side key (array items) =
      if nat_eq (count_items items) n_levels
      then and_then (caught key (levels_of int_of_text items)) (λ levels. fine (array levels))
      else problem (bad_shape (wrong_depth key (some (count_items items))))
  normal_side key _ = problem (bad_shape (wrong_depth key none))

  unfoldable pub normal_value : Text → Value → Checked Value
  normal_value key value =
      if text_eq key key_bid || text_eq key key_ask then normal_side key value else fine value

  unfoldable pub normal_fields : Fields → Checked Fields
  normal_fields end = fine end
  normal_fields (field key value rest) = elim (text_eq key key_lat) [
    | true ↦ normal_fields rest
    | false ↦
        and_then (normal_value key value)
          (λ v. and_then (normal_fields rest) (λ out. fine (field key v out)))
  ]

  -- `_normalize`
  unfoldable pub normalize : Value → Checked Fields
  normalize (object fields) = if_complete (missing fields required_fields) (normal_fields fields)
  normalize _ = problem (bad_shape non_object)

pub data Which : Type 0 where
  golden rtl : Which

-- Why a line or a pair of lines is reported.
pub data Reason : Type 0 where
  bad_line_of : Which → Problem → Reason
  ended_early : Which → Reason
  field_mismatch : Reason

pub record Detail : Type 0 where
  pub index : ℕ
  pub reason : Reason
  pub golden_line : Option Text
  pub rtl_line : Option Text

-- The summary, which the loop also has as its local variables.
pub record Outcome : Type 0 where
  pub compared : ℕ
  pub mismatches : ℕ
  pub first_mismatch : Option Detail
  pub matched_before_first : ℕ
  pub reports : List Detail

abbrev pub no_outcome : Outcome
no_outcome = record {
  compared = 0;
  mismatches = 0;
  first_mismatch = none;
  matched_before_first = 0;
  reports = [];
}

-- `_read_lines`, of the lines of the file
unfoldable pub read_lines : List Text → List Text
read_lines [] = []
read_lines (line ∷ lines) = elim (strip line) [
  | [] ↦ read_lines lines
  | c ∷ cs ↦ (c ∷ cs) ∷ read_lines lines
]

-- `_bad_line`
abbrev pub bad_line : Which → ℕ → Text → Problem → ℕ → Outcome
bad_line which index raw why compared =
    let detail : Detail = record {
      index = index;
      reason = bad_line_of which why;
      golden_line = elim which [ golden ↦ some raw | rtl ↦ none ];
      rtl_line = elim which [ golden ↦ none | rtl ↦ some raw ];
    } in
    record {
      compared = compared;
      mismatches = 1;
      first_mismatch = some detail;
      matched_before_first = compared;
      reports = detail ∷ [];
    }

-- `mismatches += 1`, and `if first_mismatch is None: ...`
abbrev pub noted : Detail → Outcome → Option Detail → Outcome
noted detail o none = record o {
  mismatches = o.mismatches + 1;
  first_mismatch = some detail;
  matched_before_first = o.compared;
}
noted detail o (some first) = record o { mismatches = o.mismatches + 1 }

abbrev pub add_report : Detail → Outcome → Outcome
add_report detail o = record o { reports = o.reports ++ detail ∷ [] }

abbrev pub end_detail : Which → ℕ → Option Text → Option Text → Detail
end_detail which index g r = record {
  index = index;
  reason = ended_early which;
  golden_line = g;
  rtl_line = r;
}

-- One of the traces has ended.
abbrev pub ended : Which → ℕ → Option Text → Option Text → Outcome → Outcome
ended which index g r o =
    let detail = end_detail which index g r in add_report detail (noted detail o o.first_mismatch)

abbrev pub pair_detail : ℕ → Text → Text → Detail
pair_detail index g r = record {
  index = index;
  reason = field_mismatch;
  golden_line = some g;
  rtl_line = some r;
}

-- Two updates differ.
abbrev pub mismatched : ℕ → ℕ → Text → Text → Outcome → Outcome
mismatched max_report index g r o =
    let detail = pair_detail index g r in
    let o' = noted detail o o.first_mismatch in
    if ltb (length o.reports) max_report then add_report detail o' else o'

-- `except ValueError`
abbrev pub unread : Error → Checked Fields
unread value_error = problem invalid_json
unread e = uncaught e

module _ (int_of_text : Text → Option ℤ) (loads : Text → Result Value) where
  -- `_normalize(json.loads(raw))`
  unfoldable pub check_line : Text → Checked Fields
  check_line raw = elim (loads raw) [ raise e ↦ unread e | ok value ↦ normalize int_of_text value ]

  unfoldable pub compare_from : ℕ → ℕ → Outcome → List Text → List Text → Result Outcome
  compare_from max_report index o [] [] = ok o
  compare_from max_report index o [] (r ∷ rs) = ok (ended golden index none (some r) o)
  compare_from max_report index o (g ∷ gs) [] = ok (ended rtl index (some g) none o)
  compare_from max_report index o (g ∷ gs) (r ∷ rs) = elim (check_line g) [
    | uncaught e ↦ raise e
    | problem why ↦ ok (bad_line golden index g why o.compared)
    | fine a ↦ elim (check_line r) [
      | uncaught e ↦ raise e
      | problem why ↦ ok (bad_line rtl index r why o.compared)
      | fine b ↦ elim (fields_eq a b) [
        | true ↦ compare_from max_report (index + 1) (record o { compared = o.compared + 1 }) gs rs
        | false ↦ elim (leb max_report (mismatched max_report index g r o).mismatches) [
          | true ↦ ok (mismatched max_report index g r o)
          | false ↦ compare_from max_report (index + 1) (mismatched max_report index g r o) gs rs
        ]
      ]
    ]
  ]

  unfoldable pub compare_files : ℕ → List Text → List Text → Result Outcome
  compare_files max_report golden_lines rtl_lines =
      compare_from max_report 0 no_outcome (read_lines golden_lines) (read_lines rtl_lines)

-- What `main` prints.
pub data Verdict : Type 0 where
  vacuous : ℕ → ℕ → Verdict
  matching : ℕ → Verdict
  mismatching : ℕ → ℕ → ℕ → List Detail → Verdict
  unreadable : Verdict

pub record Exit : Type 0 where
  pub code : ℕ
  pub printed : Verdict

abbrev pub exit_with : ℕ → Verdict → Exit
exit_with code printed = record { code = code; printed = printed }

-- What follows the comparison.
unfoldable pub verdict : ℕ → Outcome → Exit
verdict min_updates o =
    if nat_eq o.mismatches 0
    then if ltb o.compared min_updates
      then exit_with 1 (vacuous o.compared min_updates)
      else exit_with 0 (matching o.compared)
    else exit_with 1 (mismatching o.mismatches o.matched_before_first o.compared o.reports)

-- `main`, of the lines of the files; `none` is a file that cannot be opened.
unfoldable pub main :
    (Text → Option ℤ)
    → (Text → Result Value)
    → ℕ
    → ℕ
    → Option (List Text)
    → Option (List Text)
    → Result Exit
main int_of_text loads max_report min_updates (some golden_lines) (some rtl_lines) = do
  o ← compare_files int_of_text loads max_report golden_lines rtl_lines
  ok (verdict min_updates o)
main int_of_text loads max_report min_updates _ _ = ok (exit_with 1 unreadable)
