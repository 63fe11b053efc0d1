-- ===== src/Traces/Finite.antt =====
-- model/compare_traces.py ends without an exception unless a line holds an infinite number or
-- `json.loads` raises something else than a `ValueError` on it.
use hft_rtl.Prelude.{
  ℕ, ◌≡◌, ◌≢◌, inl, inr, refl, true, false, Option, some, List, [], ◌∷◌, nat_eq, Text, text_eq,
  Bool-cases, ◌||◌, All, Option-cases,
}
use hft_rtl.Prelude.Result.{
  Result, raise, ok, ◌>>=◌, Returns-eq, index_error, key_error, struct_error, unicode_error,
  assertion_error, value_error, overflow_error, recursion_error, Result-cases,
}
use hft_rtl.Prelude.Int.{ℤ}
use hft_rtl.Traces.Json.{
  Value, null, boolean, integer, float, infinity, nan, text, array, object, Items, nil, item,
  Fields, end, field, unpack, int_of, level_of, levels_of, count_items,
}
use hft_rtl.Traces.{
  Checked, problem, uncaught, fine, and_then, caught, if_complete, n_levels, normal_side,
  normal_value, normal_fields, normalize, missing, required_fields, check_line, key_lat, key_bid,
  key_ask, no_outcome, read_lines, compare_from, compare_files, Exit, verdict, main,
}
use hft_rtl.Traces.Reports.{IsSettled, compare_from-Returns}
use hft_rtl.Traces.Steps.{Settled}

-- No number in the value is infinite.
unfoldable mutual
  pub IsFinite : Value → Type 0
  IsFinite (infinity s) = ⊥
  IsFinite (array vs) = ItemsFinite vs
  IsFinite (object fs) = FieldsFinite fs
  IsFinite _ = Unit

  pub ItemsFinite : Items → Type 0
  ItemsFinite nil = Unit
  ItemsFinite (item v vs) = IsFinite v × ItemsFinite vs

  pub FieldsFinite : Fields → Type 0
  FieldsFinite end = Unit
  FieldsFinite (field k v fs) = IsFinite v × FieldsFinite fs

-- No `OverflowError`.
abbrev Quiet {ℓ} : {A : Type ℓ} → Result A → Type 0
Quiet (raise overflow_error) = ⊥
Quiet _ = Unit

Quiet-bind :
    {A B : Type 0} (m : Result A) (next : A → Result B)
    → Quiet m
    → ((a : A) → Quiet (next a))
    → Quiet (m >>= next)
Quiet-bind (ok a) next h k = k a
Quiet-bind (raise overflow_error) next h k = absurd h
Quiet-bind (raise index_error) next h k = tt
Quiet-bind (raise key_error) next h k = tt
Quiet-bind (raise struct_error) next h k = tt
Quiet-bind (raise unicode_error) next h k = tt
Quiet-bind (raise assertion_error) next h k = tt
Quiet-bind (raise value_error) next h k = tt
Quiet-bind (raise recursion_error) next h k = tt

Settled-caught : {A : Type 0} (key : Text) (m : Result A) → Quiet m → Settled (caught key m)
Settled-caught key (ok a) h = tt
Settled-caught key (raise overflow_error) h = absurd h
Settled-caught key (raise index_error) h = tt
Settled-caught key (raise key_error) h = tt
Settled-caught key (raise struct_error) h = tt
Settled-caught key (raise unicode_error) h = tt
Settled-caught key (raise assertion_error) h = tt
Settled-caught key (raise value_error) h = tt
Settled-caught key (raise recursion_error) h = tt

Settled-and_then :
    {A B : Type 0} (m : Checked A) (next : A → Checked B)
    → Settled m
    → ((a : A) → Settled (next a))
    → Settled (and_then m next)
Settled-and_then (fine a) next h k = k a
Settled-and_then (problem p) next h k = tt
Settled-and_then (uncaught e) next h k = absurd h

abbrev PairFinite : Result (Value × Value) → Type 0
PairFinite (ok (p, s)) = IsFinite p × IsFinite s
PairFinite (raise e) = e ≢ overflow_error

unpack-finite : (v : Value) → IsFinite v → PairFinite (unpack v)
unfolding IsFinite
unpack-finite null h = λ e. cc
unpack-finite (boolean b) h = λ e. cc
unpack-finite (integer n) h = λ e. cc
unpack-finite (float m k) h = λ e. cc
unpack-finite (infinity s) h = absurd h
unpack-finite nan h = λ e. cc
unpack-finite (text []) h = λ e. cc
unpack-finite (text (a ∷ [])) h = λ e. cc
unpack-finite (text (a ∷ b ∷ [])) h = (tt, tt)
unpack-finite (text (a ∷ b ∷ c ∷ t)) h = λ e. cc
unpack-finite (array nil) h = λ e. cc
unpack-finite (array (item p nil)) h = λ e. cc
unpack-finite (array (item p (item s nil))) (hp, (hs, h)) = (hp, hs)
unpack-finite (array (item p (item s (item r vs)))) h = λ e. cc
unpack-finite (object end) h = λ e. cc
unpack-finite (object (field k v end)) h = λ e. cc
unpack-finite (object (field k v (field l w end))) h = (tt, tt)
unpack-finite (object (field k v (field l w (field m x fs)))) h = λ e. cc

Settled-if_complete :
    (ks : List Text) (rest : Checked Fields) → Settled rest → Settled (if_complete ks rest)
Settled-if_complete [] rest h = h
Settled-if_complete (k ∷ ks) rest h = tt

-- What is unpacked is finite, and another exception is no overflow.
Quiet-unpack :
    {B : Type 0} (m : Result (Value × Value)) (next : Value × Value → Result B)
    → PairFinite m
    → ((p s : Value) → IsFinite p → IsFinite s → Quiet (next (p, s)))
    → Quiet (m >>= next)
Quiet-unpack (ok (p, s)) next (hp, hs) k = k p s hp hs
Quiet-unpack (raise overflow_error) next h k = absurd (h refl)
Quiet-unpack (raise index_error) next h k = tt
Quiet-unpack (raise key_error) next h k = tt
Quiet-unpack (raise struct_error) next h k = tt
Quiet-unpack (raise unicode_error) next h k = tt
Quiet-unpack (raise assertion_error) next h k = tt
Quiet-unpack (raise value_error) next h k = tt
Quiet-unpack (raise recursion_error) next h k = tt

module _ (int_of_text : Text → Option ℤ) where
  Quiet-int_of : (v : Value) → IsFinite v → Quiet (int_of int_of_text v)
  unfolding int_of IsFinite
  Quiet-int_of (boolean true) h = tt
  Quiet-int_of (boolean false) h = tt
  Quiet-int_of (integer n) h = tt
  Quiet-int_of (float m k) h = tt
  Quiet-int_of (infinity s) h = absurd h
  Quiet-int_of (text t) h = elim (Option-cases (int_of_text t)) [
    | inl e ↦ rw e tt
    | inr (n, e) ↦ rw e tt
  ]
  Quiet-int_of null h = tt
  Quiet-int_of nan h = tt
  Quiet-int_of (array vs) h = tt
  Quiet-int_of (object fs) h = tt

  Quiet-level_of : (v : Value) → IsFinite v → Quiet (level_of int_of_text v)
  unfolding level_of
  Quiet-level_of v h = Quiet-unpack (unpack v) _ (unpack-finite v h) (λ p s hp hs.
      Quiet-bind (int_of int_of_text p) _ (Quiet-int_of p hp)
        (λ a. Quiet-bind (int_of int_of_text s) _ (Quiet-int_of s hs) (λ b. tt)))

  Quiet-levels_of : (vs : Items) → ItemsFinite vs → Quiet (levels_of int_of_text vs)
  unfolding levels_of IsFinite
  Quiet-levels_of nil h = tt
  Quiet-levels_of (item v vs) (hv, h) =
      Quiet-bind (level_of int_of_text v) _ (Quiet-level_of v hv)
        (λ level. Quiet-bind (levels_of int_of_text vs) _ (Quiet-levels_of vs h) (λ rest. tt))

  Settled-normal_side :
      (key : Text) (v : Value) → IsFinite v → Settled (normal_side int_of_text key v)
  unfolding normal_side IsFinite
  Settled-normal_side key (array vs) h = elim (Bool-cases (nat_eq (count_items vs) n_levels)) [
    | inl e ↦ rw e (
        Settled-and_then (caught key (levels_of int_of_text vs)) _
          (Settled-caught key (levels_of int_of_text vs) (Quiet-levels_of vs h)) (λ a. tt))
    | inr e ↦ rw e tt
  ]
  Settled-normal_side key null h = tt
  Settled-normal_side key (boolean b) h = tt
  Settled-normal_side key (integer n) h = tt
  Settled-normal_side key (float m k) h = tt
  Settled-normal_side key (infinity s) h = tt
  Settled-normal_side key nan h = tt
  Settled-normal_side key (text t) h = tt
  Settled-normal_side key (object fs) h = tt

  Settled-normal_value :
      (key : Text) (v : Value) → IsFinite v → Settled (normal_value int_of_text key v)
  unfolding normal_value
  Settled-normal_value key v h = elim (Bool-cases (text_eq key key_bid || text_eq key key_ask)) [
    | inl e ↦ rw e (Settled-normal_side key v h)
    | inr e ↦ rw e tt
  ]

  Settled-normal_fields : (fs : Fields) → FieldsFinite fs → Settled (normal_fields int_of_text fs)
  unfolding normal_fields IsFinite
  Settled-normal_fields end h = tt
  Settled-normal_fields (field k v fs) (hv, h) = elim (Bool-cases (text_eq k key_lat)) [
    | inl e ↦ rw (e, normal_fields) (Settled-normal_fields fs h)
    | inr e ↦
        rw (e, normal_fields)
          (Settled-and_then (normal_value int_of_text k v) _ (Settled-normal_value k v hv) (λ w.
            Settled-and_then (normal_fields int_of_text fs) _ (Settled-normal_fields fs h)
              (λ out. tt)))
  ]

  Settled-normalize : (v : Value) → IsFinite v → Settled (normalize int_of_text v)
  unfolding normalize IsFinite
  Settled-normalize (object fs) h =
      Settled-if_complete (missing fs required_fields) (normal_fields int_of_text fs)
        (Settled-normal_fields fs h)
  Settled-normalize null h = tt
  Settled-normalize (boolean b) h = tt
  Settled-normalize (integer n) h = tt
  Settled-normalize (float m k) h = tt
  Settled-normalize (infinity s) h = tt
  Settled-normalize nan h = tt
  Settled-normalize (text t) h = tt
  Settled-normalize (array vs) h = tt

  module _ (loads : Text → Result Value) where
    -- The line is JSON in which no number is infinite, or `json.loads` raises a `ValueError` on it.
    abbrev pub IsSafe : Text → Type 0
    IsSafe line = elim (loads line) [ raise e ↦ e ≡ value_error | ok v ↦ IsFinite v ]

    IsSettled-of_safe : (line : Text) → IsSafe line → IsSettled int_of_text loads line
    unfolding check_line
    IsSettled-of_safe line h = elim (Result-cases (loads line)) [
      | inl (v, e) ↦
          let finite : IsFinite v = rw (e, IsSafe) at h in
          rw (e, check_line) (Settled-normalize v finite)
      | inr (err, e) ↦
          let is : err ≡ value_error = rw (e, IsSafe) at h in rw (e, check_line) (rw is tt)
    ]

    All-IsSettled : (lines : List Text) → All IsSafe lines → All (IsSettled int_of_text loads) lines
    All-IsSettled [] h = tt
    All-IsSettled (l ∷ lines) (hl, h) = (IsSettled-of_safe l hl, All-IsSettled lines h)

    -- If every line of the two files that is not blank is JSON in which no number is infinite, or
    -- makes `json.loads` raise a `ValueError`, then the program ends in an exit code and what it
    -- prints, without an exception, whatever else the lines are.
    pub main-Returns :
        (max min_updates : ℕ) (gs rs : List Text)
        → All IsSafe (read_lines gs)
        → All IsSafe (read_lines rs)
        → (e : Exit) × (main int_of_text loads max min_updates (some gs) (some rs) ≡ ok e)
    unfolding main compare_files
    main-Returns max min_updates gs rs hg hr =
        let (o, is, t) =
          Returns-eq (λ o. Unit)
            (compare_from int_of_text loads max 0 no_outcome (read_lines gs) (read_lines rs))
            (compare_from-Returns int_of_text loads max 0 no_outcome (read_lines gs) (read_lines rs)
              (All-IsSettled (read_lines gs) hg) (All-IsSettled (read_lines rs) hr)) in
        (verdict min_updates o, rw is refl)
