-- ===== src/Orders/First.antt =====
-- What the summary of model/compare_orders.py says of the first divergence.
use hft_rtl.Prelude.{
  ℕ, suc, ◌+◌, ◌≡◌, inl, inr, refl, sym, ap, ◌∙◌, true, false, Option, none, some, List, [], ◌∷◌,
  arith, ltb, leb, nat_eq, Text, length, Bool-cases, All, take,
}
use hft_rtl.Orders.{
  Parsed, golden, rtl, Detail, Outcome, Order, good, order_eq, pair_detail, end_detail, mismatched,
  drained, no_outcome, check_line, compare_from, compare_files,
}
use hft_rtl.Orders.Steps.{order_eq_iff, same_order, last_mismatch, next_mismatch}
use hft_rtl.Orders.Match.{Matches}

-- What the summary says of the first divergence.
abbrev pub First : Type 0
First = Option Detail × ℕ

abbrev first_of : Outcome → First
first_of o = (o.first_mismatch, o.matched_before_first)

abbrev noted_at : Detail → ℕ → First
noted_at detail n = (some detail, n)

drained-first :
    (index : ℕ) (gs rs : List Text) (o : Outcome) → first_of (drained index gs rs o) ≡ first_of o
drained-first index gs rs o = elim (Bool-cases (nat_eq (length gs) (length rs))) [
  | inl same ↦ rw same refl
  | inr other ↦ rw other refl
]

mismatched-first_some :
    (max index : ℕ) (g r : Text) (a b : Order) (o : Outcome) (d : Detail)
    → o.first_mismatch ≡ some d
    → first_of (mismatched max index g r a b o) ≡ first_of o
mismatched-first_some max index g r a b o d e = elim (Bool-cases (ltb (length o.reports) max)) [
  | inl more ↦ rw (e, more) refl
  | inr full ↦ rw (e, full) refl
]

mismatched-first_none :
    (max index : ℕ) (g r : Text) (a b : Order) (o : Outcome)
    → o.first_mismatch ≡ none
    → first_of (mismatched max index g r a b o) ≡ (some (pair_detail index g r a b), o.compared)
mismatched-first_none max index g r a b o e = elim (Bool-cases (ltb (length o.reports) max)) [
  | inl more ↦ rw (e, more) refl
  | inr full ↦ rw (e, full) refl
]

module _ (loads : Text → Option Parsed) where
  -- The line is a well-formed order.
  abbrev pub IsGood : Text → Type 0
  IsGood line = (a : Order) × (check_line loads line ≡ good a)

  other_pair :
      (max index : ℕ) (o : Outcome) (g r : Text) (gs rs : List Text) (a : Order)
      → check_line loads g ≡ good a
      → (b : Order) → check_line loads r ≡ good b
      → order_eq a b ≡ false
      → first_of (compare_from loads max (index + 1) (mismatched max index g r a b o) gs rs)
        ≡ first_of (mismatched max index g r a b o)
      → first_of (compare_from loads max index o (g ∷ gs) (r ∷ rs))
        ≡ first_of (mismatched max index g r a b o)
  other_pair max index o g r gs rs a eg b er other rest =
      let o' = mismatched max index g r a b o in
      elim (Bool-cases (leb max o'.mismatches)) [
        | inl enough ↦
            rw (last_mismatch loads max index o g r gs rs a eg b er other enough)
              (drained-first index gs rs o')
        | inr fewer ↦ rw (next_mismatch loads max index o g r gs rs a eg b er other fewer) rest
      ]

  -- What is noted stays, if no line is malformed.
  compare_from-keeps :
      (max index : ℕ) (o : Outcome) (gs rs : List Text) (d : Detail)
      → All IsGood gs
      → All IsGood rs
      → o.first_mismatch ≡ some d
      → first_of (compare_from loads max index o gs rs) ≡ first_of o
  unfolding compare_from
  compare_from-keeps max index o [] [] d hg hr e = refl
  compare_from-keeps max index o [] (r ∷ rs) d hg hr e = rw e refl
  compare_from-keeps max index o (g ∷ gs) [] d hg hr e = rw e refl
  compare_from-keeps max index o (g ∷ gs) (r ∷ rs) d ((a, eg), hg) ((b, er), hr) e =
      elim (Bool-cases (order_eq a b)) [
        | inl same ↦ rw (same_order loads max index o g r gs rs a eg b er same) (
            compare_from-keeps max (index + 1) (record o { compared = o.compared + 1 }) gs rs d hg
              hr e)
        | inr other ↦
            let o' = mismatched max index g r a b o in
            let stays = mismatched-first_some max index g r a b o d e in
            let still : o'.first_mismatch ≡ some d = ap (λ (f : First). f.0) stays ∙ e in
            other_pair max index o g r gs rs a eg b er other
              (compare_from-keeps max (index + 1) o' gs rs d hg hr still)
            ∙ stays
      ]

  -- The streams match through `k` lines and not through one more.
  abbrev pub DivergesAt : ℕ → List Text → List Text → Type 0
  DivergesAt k gs rs =
      Matches loads (take k gs) (take k rs) × ¬ Matches loads (take (suc k) gs) (take (suc k) rs)

  abbrev Reported : ℕ → First → List Text → List Text → Type 0
  Reported index first gs rs =
      (d : Detail)
      → first.0 ≡ some d
      → (k : ℕ) × (d.index ≡ index + k) × (first.1 ≡ index + k) × DivergesAt k gs rs

  here :
      (index : ℕ) (first : First) (detail : Detail) (gs rs : List Text)
      → first ≡ (some detail, index)
      → detail.index ≡ index
      → DivergesAt 0 gs rs
      → Reported index first gs rs
  here index first detail gs rs is at diverges d e =
      let same : detail ≡ d = cc in
      (0, rw (← same) (omega (arith, at)), omega (arith, ap (λ (f : First). f.1) is), diverges)

  compare_from-Reported :
      (max index : ℕ) (o : Outcome) (gs rs : List Text)
      → All IsGood gs
      → All IsGood rs
      → o.first_mismatch ≡ none
      → o.compared ≡ index
      → Reported index (first_of (compare_from loads max index o gs rs)) gs rs
  unfolding compare_from
  compare_from-Reported max index o [] [] hg hr e c = λ d is. cc
  compare_from-Reported max index o [] (r ∷ rs) hg hr e c =
      here index (first_of (compare_from loads max index o [] (r ∷ rs)))
        (end_detail golden index none (some r)) [] (r ∷ rs) (rw (e, c) refl) refl (tt, λ h. h)
  compare_from-Reported max index o (g ∷ gs) [] hg hr e c =
      here index (first_of (compare_from loads max index o (g ∷ gs) []))
        (end_detail rtl index (some g) none) (g ∷ gs) [] (rw (e, c) refl) refl (tt, λ h. h)
  compare_from-Reported max index o (g ∷ gs) (r ∷ rs) ((a, eg), hg) ((b, er), hr) e c =
      elim (Bool-cases (order_eq a b)) [
        | inl same ↦ λ d is.
            let step = same_order loads max index o g r gs rs a eg b er same in
            let equal = (order_eq_iff a b).0 same in
            let (k, at, matched, (m, n)) =
              compare_from-Reported max (index + 1) (record o { compared = o.compared + 1 }) gs rs
                hg hr e (omega (arith, c)) d (rw step at is) in
            (
              suc k,
              omega (arith, at),
              rw step (omega (arith, matched)),
              (((a, eg, rw equal er), m), λ (s, h). n h),
            )
        | inr other ↦
            let o' = mismatched max index g r a b o in
            let fresh = mismatched-first_none max index g r a b o e in
            let noted_here : o'.first_mismatch ≡ some (pair_detail index g r a b) =
              ap (λ (f : First). f.0) fresh in
            let first = other_pair max index o g r gs rs a eg b er other (
              compare_from-keeps max (index + 1) o' gs rs (pair_detail index g r a b) hg hr
                noted_here) in
            here index (first_of (compare_from loads max index o (g ∷ gs) (r ∷ rs)))
              (pair_detail index g r a b) (g ∷ gs) (r ∷ rs)
              (first ∙ fresh ∙ ap (noted_at (pair_detail index g r a b)) c) refl
              (
                tt,
                λ ((x, eg', er'), h).
                    let left : x ≡ a = cc in
                    let right : x ≡ b = cc in
                    let equal : order_eq a b ≡ true = (order_eq_iff a b).1 (sym left ∙ right) in cc,
              )
      ]

  -- If every line of both streams is a well-formed order and a first divergence is reported, its index
  -- is the number of lines through which the streams match, which do not match through one more, and
  -- `matched_before_first` is that number.
  pub compare_files-DivergesAt :
      (max : ℕ) (gs rs : List Text) (d : Detail)
      → All IsGood gs
      → All IsGood rs
      → (compare_files loads max gs rs).first_mismatch ≡ some d
      → ((compare_files loads max gs rs).matched_before_first ≡ d.index) × DivergesAt d.index gs rs
  unfolding compare_files
  compare_files-DivergesAt max gs rs d hg hr is =
      let (k, at, matched, diverges) =
        compare_from-Reported max 0 no_outcome gs rs hg hr refl refl d is in
      let same : k ≡ d.index = omega (arith, at) in
      (omega (arith, at, matched), rw (← same) diverges)
