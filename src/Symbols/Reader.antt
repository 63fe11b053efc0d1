-- ===== src/Symbols/Reader.antt =====
-- A reader of the array that scripts/gen_symbols.py prints, and what it reads.
use hft_rtl.Prelude.{
  ℕ, zero, suc, ◌+◌, ◌≤◌, ◌<◌, ◌≡◌, refl, ap, ◌∙◌, ◌-◌, replicate, Option, none, some, List, [],
  ◌∷◌, ◌++◌, arith, append_assoc, nat_eq, Text, if◌then◌else◌, length, length-append,
  length-replicate, take, drop, take-append_exact, drop-append_exact, All,
}
use hft_rtl.Prelude.Bytes.{ljust, ljust_with}
use hft_rtl.Symbols.{
  str, item, items_from, join_with, comma, opening, closing, last_line, num_symbols,
}
use hft_rtl.Symbols.Decimal.{read_number, read_number-str}

-- What follows a prefix.
unfoldable pub strip_prefix : Text → Text → Option Text
strip_prefix [] t = some t
strip_prefix (p ∷ ps) [] = none
strip_prefix (p ∷ ps) (c ∷ cs) = let rest = strip_prefix ps cs in if nat_eq p c then rest else none

strip_prefix-append : (p t : Text) → strip_prefix p (p ++ t) ≡ some t
unfolding strip_prefix
strip_prefix-append [] t = refl
strip_prefix-append (c ∷ p) t = ground (arith, strip_prefix-append p t)

abbrev if_some {ℓ κ} : {A : Type ℓ} {B : Type κ} → Option A → (A → Option B) → Option B
if_some none f = none
if_some (some a) f = f a

-- A place of the array and the name in it.
abbrev pub Slot : Type 0
Slot = ℕ × Text

-- The slots, at most as many as there are places, and then what fills the others.
unfoldable pub read_slots : ℕ → Text → Option (List Slot)
read_slots zero t = none
read_slots (suc fuel) t = elim (read_number 0 t) [
  | none ↦ if_some (strip_prefix closing t) (λ rest. some [])
  | some number ↦ if_some (strip_prefix (b' ' ∷ b'"' ∷ []) number.1) (λ name.
      if_some (strip_prefix (b'"' ∷ comma) (drop 8 name))
        (λ rest. if_some (read_slots fuel rest) (λ slots. some ((number.0, take 8 name) ∷ slots))))
]

unfoldable pub read_line : Text → Option (List Slot)
read_line line = if_some (strip_prefix opening line) (read_slots (num_symbols + 1))

-- The array is the last of the four lines.
unfoldable pub read_header : List Text → Option (List Slot)
read_header (a ∷ b ∷ c ∷ line ∷ []) = read_line line
read_header lines = none

-- Symbol `i` in slot `i`, padded.
unfoldable pub slots_from : ℕ → List Text → List Slot
slots_from i [] = []
slots_from i (s ∷ symbols) = (i, ljust 8 s) ∷ slots_from (i + 1) symbols

abbrev pub IsShort : Text → Type 0
IsShort s = length s ≤ 8

-- Every item is followed by a comma.
unfoldable ended : ℕ → List Text → Text
ended i [] = closing
ended i (s ∷ symbols) = item i s ++ (comma ++ ended (i + 1) symbols)

join_with-ended :
    (i : ℕ) (s : Text) (symbols : List Text)
    → join_with comma (items_from i (s ∷ symbols)) ++ (comma ++ closing) ≡ ended i (s ∷ symbols)
unfolding join_with items_from ended
join_with-ended i s [] = refl
join_with-ended i s (s' ∷ symbols) =
    let rest = join_with comma (items_from (i + 1) (s' ∷ symbols)) in
    append_assoc (item i s) (comma ++ rest) (comma ++ closing)
    ∙ ap (λ t. item i s ++ (comma ++ t)) (join_with-ended (i + 1) s' symbols)

-- The item and the comma, as the reader comes across their parts.
item-parts :
    (i : ℕ) (s rest : Text)
    → item i s ++ (comma ++ rest)
      ≡ str i ++ (b':' ∷ b' ' ∷ b'"' ∷ (ljust 8 s ++ (b'"' ∷ (comma ++ rest))))
item-parts i s rest =
    append_assoc (str i) (b':' ∷ b' ' ∷ b'"' ∷ (ljust 8 s ++ b'"' ∷ [])) (comma ++ rest)
    ∙ ap (λ t. str i ++ (b':' ∷ b' ' ∷ b'"' ∷ t))
        (append_assoc (ljust 8 s) (b'"' ∷ []) (comma ++ rest))

length-ljust : (s : Text) → IsShort s → length (ljust 8 s) ≡ 8
unfolding ljust_with
length-ljust s h = omega (
  arith,
  length-append s (replicate (8 - length s) b' '),
  length-replicate {A = ℕ} (8 - length s) b' ',
)

read_slots-ended :
    (fuel i : ℕ) (symbols : List Text)
    → length symbols < fuel
    → All IsShort symbols
    → read_slots fuel (ended i symbols) ≡ some (slots_from i symbols)
unfolding read_slots ended slots_from strip_prefix read_number
read_slots-ended zero i symbols h short = absurd (omega arith)
read_slots-ended (suc fuel) i [] h short = refl
read_slots-ended (suc fuel) i (s ∷ symbols) h (short, shorts) =
    let rest = ended (i + 1) symbols in
    let size = length-ljust s short in
    let number = read_number-str i (b' ' ∷ b'"' ∷ (ljust 8 s ++ (b'"' ∷ (comma ++ rest)))) in
    let name = take-append_exact 8 (ljust 8 s) (b'"' ∷ (comma ++ rest)) size in
    let after = drop-append_exact 8 (ljust 8 s) (b'"' ∷ (comma ++ rest)) size in
    let slots = read_slots-ended fuel (i + 1) symbols (omega arith) shorts in
    rw (item-parts i s rest) (rw (number, read_slots) (rw (after, name, slots) refl))

pub read_line-last_line :
    (s : Text) (symbols : List Text)
    → length (s ∷ symbols) ≤ num_symbols
    → All IsShort (s ∷ symbols)
    → read_line (last_line (s ∷ symbols)) ≡ some (slots_from 0 (s ∷ symbols))
unfolding read_line
read_line-last_line s symbols h short =
    let array = join_with-ended 0 s symbols in
    rw (array, strip_prefix-append opening (ended 0 (s ∷ symbols)))
      (read_slots-ended (num_symbols + 1) 0 (s ∷ symbols) (omega arith) short)
