-- ===== src/Orders.antt =====
-- model/compare_orders.py: the comparison of two order streams, over the lines that `_read_lines`
-- yields. `loads` is `json.loads`: `none` stands for a `ValueError`; another exception, such as a
-- `RecursionError`, is outside of this model. Of a value only what the code asks for is kept. The
-- texts of reasons are data.
pub mod Steps
pub mod Match
pub mod First
pub mod Command
use mathlib.Core.Option
use hft_rtl.Prelude.{
  ℕ, zero, suc, ◌+◌, ◌*◌, ◌-◌, Bool, true, false, ◌&&◌, ◌||◌, not, Option, none, some, List, [],
  ◌∷◌, ◌++◌, ltb, leb, nat_eq, min, if◌then◌else◌, Text, text_eq, length, text_key,
}
use hft_rtl.Prelude.Bytes.{Bytes}
use hft_rtl.Prelude.Dict.{Dict, lookup}
use hft_rtl.Prelude.Int.{ℤ, pos, negsuc, int_eq}

-- A value of a JSON object; numbers that are no integers, `null`, lists and objects are `other`.
pub data Value : Type 0 where
  integer : ℤ → Value
  boolean : Bool → Value
  text : Text → Value
  other : Value

pub data Parsed : Type 0 where
  object : Dict Text Value → Parsed
  non_object : Parsed

pub data Which : Type 0 where
  golden rtl : Which

-- Why a line or a pair of lines is reported; the counts are those of all lines.
pub data Reason : Type 0 where
  bad_shape : Which → Reason
  invalid_json : Which → Reason
  ended_early : Which → Reason
  ended_early_of : Which → ℕ → ℕ → Reason
  ordinal_mismatch : Reason
  frame_mismatch : Reason

pub record Detail : Type 0 where
  pub index : ℕ
  pub n : Option ℤ
  pub reason : Reason
  pub golden_line : Option Text
  pub rtl_line : Option Text

-- The summary, which the loop also has as its local variables.
pub record Outcome : Type 0 where
  pub compared : ℕ
  pub mismatches : ℕ
  pub first_mismatch : Option Detail
  pub matched_before_first : ℕ
  pub reports : List Detail

abbrev pub is_space : ℕ → Bool
is_space c = nat_eq c b' ' || (leb 9 c && leb c 13)

abbrev pub hex_value : ℕ → Option ℕ
hex_value c =
    if leb b'0' c && leb c b'9'
    then some (c - b'0')
    else if leb b'A' c && leb c b'F'
    then some (c - 55)
    else if leb b'a' c && leb c b'f'
    then some (c - 87)
    else none

abbrev pub push_byte : Option ℕ → Option ℕ → Option Bytes → Option Bytes
push_byte (some high) (some low) (some rest) = some ((high * 16 + low) ∷ rest)
push_byte _ _ _ = none

-- `bytes.fromhex`: pairs of digits, with blanks between the pairs.
unfoldable pub fromhex : Text → Option Bytes
fromhex [] = some []
fromhex (c ∷ []) = if is_space c then some [] else none
fromhex (c ∷ d ∷ rest) = elim (is_space c) [
  | true ↦ fromhex (d ∷ rest)
  | false ↦ push_byte (hex_value c) (hex_value d) (fromhex rest)
]

abbrev pub order_frame_bytes : ℕ
order_frame_bytes = 51

abbrev pub and_then {ℓ} : {A B : Type ℓ} → Option A → (A → Option B) → Option B
and_then none f = none
and_then (some a) f = f a

-- What is compared of a line: `(n, raw_bytes)`.
abbrev pub Order : Type 0
Order = ℤ × Bytes

abbrev pub integer_of : Value → Option ℤ
integer_of (integer n) = some n
integer_of _ = none

abbrev pub text_of : Value → Option Text
text_of (text t) = some t
text_of _ = none

abbrev pub key_n : Text
key_n = b'n' ∷ []

abbrev pub key_raw : Text
key_raw = b'r' ∷ b'a' ∷ b'w' ∷ []

-- `_normalize`; `none` is an `OrderShapeError`.
unfoldable pub normalize : Parsed → Option Order
normalize non_object = none
normalize (object fields) = and_then (lookup key_n fields) (λ n_field.
    and_then (lookup key_raw fields) (λ raw_field. and_then (text_of raw_field) (λ raw.
      and_then (fromhex raw) (λ blob.
        if nat_eq (length blob) order_frame_bytes
        then Option.map (λ (n : ℤ). (n, blob)) (integer_of n_field)
        else none))))

pub data Checked : Type 0 where
  bad : (Which → Reason) → Checked
  good : Order → Checked

abbrev pub order_eq : Order → Order → Bool
order_eq a b = int_eq a.0 b.0 && text_eq a.1 b.1

-- `_bad_line`
abbrev pub bad_line : Which → ℕ → Text → Reason → ℕ → Outcome
bad_line which index raw reason compared =
    let detail : Detail = record {
      index = index;
      n = none;
      reason = reason;
      golden_line = elim which [ golden ↦ some raw | rtl ↦ none ];
      rtl_line = elim which [ golden ↦ none | rtl ↦ some raw ];
    } in
    record {
      compared = compared;
      mismatches = 1;
      first_mismatch = some detail;
      matched_before_first = compared;
      reports = detail ∷ [];
    }

-- `if first_mismatch is None: ...`
abbrev pub noted : Detail → Outcome → Option Detail → Outcome
noted detail o none = record o { first_mismatch = some detail; matched_before_first = o.compared }
noted detail o (some first) = o

abbrev pub add_report : Detail → Outcome → Outcome
add_report detail o = record o { reports = o.reports ++ detail ∷ [] }

abbrev pub end_detail : Which → ℕ → Option Text → Option Text → Detail
end_detail which index g r = record {
  index = index;
  n = none;
  reason = ended_early which;
  golden_line = g;
  rtl_line = r;
}

-- One of the streams has ended.
abbrev pub ended : Which → ℕ → Option Text → Option Text → Outcome → Outcome
ended which index g r o =
    let detail = end_detail which index g r in
    add_report detail (noted detail (record o { mismatches = o.mismatches + 1 }) o.first_mismatch)

abbrev pub pair_detail : ℕ → Text → Text → Order → Order → Detail
pair_detail index g r a b = record {
  index = index;
  n = some a.0;
  reason = if int_eq a.0 b.0 then frame_mismatch else ordinal_mismatch;
  golden_line = some g;
  rtl_line = some r;
}

-- Two orders differ.
abbrev pub mismatched : ℕ → ℕ → Text → Text → Order → Order → Outcome → Outcome
mismatched max_report index g r a b o =
    let detail = pair_detail index g r a b in
    let o' = noted detail (record o { mismatches = o.mismatches + 1 }) o.first_mismatch in
    if ltb (length o.reports) max_report then add_report detail o' else o'

-- The lines that are left after the last report are only counted.
abbrev pub drained : ℕ → List Text → List Text → Outcome → Outcome
drained index gs rs o =
    let g_rest = length gs in
    let r_rest = length rs in
    let which = if ltb g_rest r_rest then golden else rtl in
    if nat_eq g_rest r_rest
    then o
    else add_report
        (record {
          index = index + 1 + min g_rest r_rest;
          n = none;
          reason = ended_early_of which (index + 1 + g_rest) (index + 1 + r_rest);
          golden_line = none;
          rtl_line = none;
        })
        (record o { mismatches = o.mismatches + 1 })

abbrev pub no_outcome : Outcome
no_outcome = record {
  compared = 0;
  mismatches = 0;
  first_mismatch = none;
  matched_before_first = 0;
  reports = [];
}

module _ (loads : Text → Option Parsed) where
  -- One turn of the inner loop.
  unfoldable pub check_line : Text → Checked
  check_line raw = elim (loads raw) [
    | none ↦ bad invalid_json
    | some parsed ↦ elim (normalize parsed) [ none ↦ bad bad_shape | some order ↦ good order ]
  ]

  unfoldable pub compare_from : ℕ → ℕ → Outcome → List Text → List Text → Outcome
  compare_from max_report index o [] [] = o
  compare_from max_report index o [] (r ∷ rs) = ended golden index none (some r) o
  compare_from max_report index o (g ∷ gs) [] = ended rtl index (some g) none o
  compare_from max_report index o (g ∷ gs) (r ∷ rs) = elim (check_line g) [
    | bad reason ↦ bad_line golden index g (reason golden) o.compared
    | good a ↦ elim (check_line r) [
      | bad reason ↦ bad_line rtl index r (reason rtl) o.compared
      | good b ↦ elim (order_eq a b) [
        | true ↦ compare_from max_report (index + 1) (record o { compared = o.compared + 1 }) gs rs
        | false ↦
            let o' = mismatched max_report index g r a b o in
            elim (leb max_report o'.mismatches) [
              | true ↦ drained index gs rs o'
              | false ↦ compare_from max_report (index + 1) o' gs rs
            ]
      ]
    ]
  ]

  unfoldable pub compare_files : ℕ → List Text → List Text → Outcome
  compare_files max_report gs rs = compare_from max_report 0 no_outcome gs rs

-- What `main` returns after a comparison.
unfoldable pub exit_code : ℕ → Outcome → ℕ
exit_code min_orders o =
    if nat_eq o.mismatches 0 then (if ltb o.compared min_orders then 1 else 0) else 1
