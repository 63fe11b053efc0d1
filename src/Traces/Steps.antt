-- ===== src/Traces/Steps.antt =====
-- The branches of one turn of the loop in model/compare_traces.py.
use hft_rtl.Prelude.{
  ℕ, ◌+◌, ◌≡◌, ◌⊎◌, inl, inr, refl, Bool, true, false, Option, List, ◌∷◌, leb, if◌then◌else◌,
  Bool-cases, Text,
}
use hft_rtl.Prelude.Result.{Error, Result, raise, ok}
use hft_rtl.Prelude.Int.{ℤ}
use hft_rtl.Traces.Json.{Value, Fields, fields_eq}
use hft_rtl.Traces.{
  Problem, Checked, problem, uncaught, fine, Which, golden, rtl, Outcome, bad_line, mismatched,
  check_line, compare_from,
}

Checked-cases :
    {A : Type 0} (c : Checked A)
    → ((a : A) × (c ≡ fine a))
      ⊎ (((p : Problem) × (c ≡ problem p)) ⊎ ((e : Error) × (c ≡ uncaught e)))
Checked-cases (fine a) = inl (a, refl)
Checked-cases (problem p) = inr (inl (p, refl))
Checked-cases (uncaught e) = inr (inr (e, refl))

-- No exception escapes.
abbrev pub Settled : {A : Type 0} → Checked A → Type 0
Settled (uncaught e) = ⊥
Settled _ = Unit

module _ (int_of_text : Text → Option ℤ) (loads : Text → Result Value) (max index : ℕ) (o : Outcome)
    (g r : Text) (gs rs : List Text) where
  golden_problem :
      (why : Problem)
      → check_line int_of_text loads g ≡ problem why
      → compare_from int_of_text loads max index o (g ∷ gs) (r ∷ rs)
        ≡ ok (bad_line golden index g why o.compared)
  unfolding compare_from
  golden_problem why eg = rw (eg, compare_from) refl

  golden_uncaught :
      (e : Error)
      → check_line int_of_text loads g ≡ uncaught e
      → compare_from int_of_text loads max index o (g ∷ gs) (r ∷ rs) ≡ raise e
  unfolding compare_from
  golden_uncaught e eg = rw (eg, compare_from) refl

  module _ (a : Fields) (eg : check_line int_of_text loads g ≡ fine a) where
    rtl_problem :
        (why : Problem)
        → check_line int_of_text loads r ≡ problem why
        → compare_from int_of_text loads max index o (g ∷ gs) (r ∷ rs)
          ≡ ok (bad_line rtl index r why o.compared)
    unfolding compare_from
    rtl_problem why er = rw (eg, er, compare_from) refl

    rtl_uncaught :
        (e : Error)
        → check_line int_of_text loads r ≡ uncaught e
        → compare_from int_of_text loads max index o (g ∷ gs) (r ∷ rs) ≡ raise e
    unfolding compare_from
    rtl_uncaught e er = rw (eg, er, compare_from) refl

    module _ (b : Fields) (er : check_line int_of_text loads r ≡ fine b) where
      pub compared : compare_from int_of_text loads max index o (g ∷ gs) (r ∷ rs) ≡ (
          if fields_eq a b
          then compare_from int_of_text loads max
              (index + 1)
              (record o { compared = o.compared + 1 })
              gs
              rs
          else if leb max (mismatched max index g r o).mismatches
          then ok (mismatched max index g r o)
          else compare_from int_of_text loads max (index + 1) (mismatched max index g r o) gs rs)
      unfolding compare_from
      compared = elim (Bool-cases (fields_eq a b)) [
        | inl same ↦ rw (eg, er, same, compare_from) refl
        | inr other ↦ elim (Bool-cases (leb max (mismatched max index g r o).mismatches)) [
          | inl enough ↦ rw (eg, er, other, enough, compare_from) refl
          | inr fewer ↦ rw (eg, er, other, fewer, compare_from) refl
        ]
      ]

-- What holds whichever way a turn on two lines goes.
module _ (int_of_text : Text → Option ℤ) (loads : Text → Result Value) (max index : ℕ) (o : Outcome)
    (g r : Text) (gs rs : List Text) (P : Result Outcome → Type 0) where
  abbrev Compared : Bool → Type 0
  Compared same =
      (a b : Fields)
      → check_line int_of_text loads g ≡ fine a
      → check_line int_of_text loads r ≡ fine b
      → fields_eq a b ≡ same
      → P (
          if same
          then compare_from int_of_text loads max (index + 1)
              (record o { compared = o.compared + 1 }) gs rs
          else if leb max (mismatched max index g r o).mismatches
          then ok (mismatched max index g r o)
          else compare_from int_of_text loads max (index + 1) (mismatched max index g r o) gs rs)

  pub turn :
      ((which : Which) (line : Text) (why : Problem)
        → P (ok (bad_line which index line why o.compared)))
      → ((e : Error)
          → (check_line int_of_text loads g ≡ uncaught e)
            ⊎ (check_line int_of_text loads r ≡ uncaught e)
          → P (raise e))
      → Compared true
      → Compared false
      → P (compare_from int_of_text loads max index o (g ∷ gs) (r ∷ rs))
  turn bad raised same other = elim (Checked-cases (check_line int_of_text loads g)) [
    | inr (inl (why, eg)) ↦
        rw (golden_problem int_of_text loads max index o g r gs rs why eg) (bad golden g why)
    | inr (inr (e, eg)) ↦
        rw (golden_uncaught int_of_text loads max index o g r gs rs e eg) (raised e (inl eg))
    | inl (a, eg) ↦ elim (Checked-cases (check_line int_of_text loads r)) [
      | inr (inl (why, er)) ↦
          rw (rtl_problem int_of_text loads max index o g r gs rs a eg why er) (bad rtl r why)
      | inr (inr (e, er)) ↦
          rw (rtl_uncaught int_of_text loads max index o g r gs rs a eg e er) (raised e (inr er))
      | inl (b, er) ↦
          rw (compared int_of_text loads max index o g r gs rs a eg b er)
            (elim (Bool-cases (fields_eq a b)) [
              | inl e ↦ rw e (same a b eg er e)
              | inr e ↦ rw e (other a b eg er e)
            ])
    ]
  ]
