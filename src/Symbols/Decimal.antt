-- ===== src/Symbols/Decimal.antt =====
-- `str` of a number in scripts/gen_symbols.py, against a reader of digits.
use hft_rtl.Prelude.{
  ℕ, zero, suc, ◌+◌, ◌-◌, ◌*◌, ◌/◌, ◌%◌, ◌≤◌, ◌<◌, ◌≡◌, refl, inl, inr, Option, none, some, [], ◌∷◌,
  ◌++◌, arith, ltb, leb, nat_eq, ◌&&◌, Text, if◌then◌else◌, All, All-append_one, Bool-cases,
}
use hft_rtl.Symbols.{digits_from, str}

-- The number up to a colon, and what follows it.
unfoldable pub read_number : ℕ → Text → Option (ℕ × Text)
read_number n [] = none
read_number n (c ∷ cs) =
    let rest = read_number (n * 10 + (c - 48)) cs in
    if nat_eq c b':' then some (n, cs) else if leb 48 c && ltb c 58 then rest else none

abbrev IsDigit : ℕ → Type 0
IsDigit c = (48 ≤ c) × (c < 58)

unfoldable value : ℕ → Text → ℕ
value n [] = n
value n (c ∷ cs) = value (n * 10 + (c - 48)) cs

value-append_one : (n : ℕ) (cs : Text) (c : ℕ) → value n (cs ++ c ∷ []) ≡ value n cs * 10 + (c - 48)
unfolding value
value-append_one n [] c = refl
value-append_one n (d ∷ cs) c = value-append_one (n * 10 + (d - 48)) cs c

digits_from-IsDigit : (fuel n : ℕ) → All IsDigit (digits_from fuel n)
unfolding digits_from
digits_from-IsDigit zero n = tt
digits_from-IsDigit (suc fuel) n = elim (Bool-cases (ltb n 10)) [
  | inl e ↦ rw e ((omega arith, ground arith), tt)
  | inr e ↦ rw e (
      All-append_one IsDigit (digits_from fuel (n / 10)) (48 + n % 10)
        (digits_from-IsDigit fuel (n / 10)) (omega arith, omega arith))
]

value-digits_from : (fuel n : ℕ) → n < fuel → value 0 (digits_from fuel n) ≡ n
unfolding digits_from value
value-digits_from zero n h = omega arith
value-digits_from (suc fuel) n h = elim (Bool-cases (ltb n 10)) [
  | inl e ↦ rw e (omega arith)
  | inr e ↦
      let big : 10 ≤ n = ground arith in
      let rest = value-digits_from fuel (n / 10) (omega arith) in
      let last = value-append_one 0 (digits_from fuel (n / 10)) (48 + n % 10) in
      rw (e, last, rest) (omega arith)
]

read_number-value :
    (n : ℕ) (cs rest : Text)
    → All IsDigit cs
    → read_number n (cs ++ b':' ∷ rest) ≡ some (value n cs, rest)
unfolding read_number value
read_number-value n [] rest h = refl
read_number-value n (c ∷ cs) rest ((low, high), h) =
    ground (arith, read_number-value (n * 10 + (c - 48)) cs rest h)

pub read_number-str : (n : ℕ) (rest : Text) → read_number 0 (str n ++ b':' ∷ rest) ≡ some (n, rest)
read_number-str n rest =
    let number = value-digits_from (n + 1) n (omega arith) in
    let read = read_number-value 0 (str n) rest (digits_from-IsDigit (n + 1) n) in
    rw (read, number) refl
