-- ===== src/Symbols/Header.antt =====
-- scripts/gen_symbols.py and the order of symbols of model/book.py.
use hft_rtl.Prelude.{
  ℕ, suc, ◌+◌, ◌≤◌, ◌<◌, ◌≡◌, refl, ◌∙◌, ◌⊎◌, inl, inr, false, none, some, List, [], ◌∷◌, arith,
  ltb, Text, length, get_elem?, All, Bool-cases, Option-cases, text_eq, text_key, nat_key,
}
use hft_rtl.Prelude.Bytes.{ljust}
use hft_rtl.Prelude.Dict.{Dict, lookup, insert, lookup-insert, lookup-insert_self}
use hft_rtl.Market
use hft_rtl.Market.{indices_for}
use hft_rtl.Symbols.{symbols_of, first_long, num_symbols, generate, main, Exit}
use hft_rtl.Symbols.Reader.{Slot, IsShort, read_header, read_line-last_line, slots_from}

-- No symbol is twice in the list, the padding counted.
abbrev pub IsOther : Text → Text → Type 0
IsOther s t = text_eq (ljust 8 s) (ljust 8 t) ≡ false

unfoldable pub NoneTwice : List Text → Type 0
NoneTwice [] = Unit
NoneTwice (s ∷ symbols) = All (IsOther s) symbols × NoneTwice symbols

-- The model gives the symbol of the slot the slot's number.
abbrev pub IsIndexed : Dict Text ℕ → Slot → Type 0
IsIndexed indices slot = lookup slot.1 indices ≡ some slot.0

lookup-indices_for :
    (i : ℕ) (s : Text) (symbols : List Text) (indices : Dict Text ℕ)
    → All (IsOther s) symbols
    → lookup (ljust 8 s) (indices_for i symbols indices) ≡ lookup (ljust 8 s) indices
unfolding indices_for
lookup-indices_for i s [] indices h = refl
lookup-indices_for i s (t ∷ symbols) indices (other, h) =
    let kept = lookup-insert (ljust 8 s) (ljust 8 t) i indices in
    lookup-indices_for (i + 1) s symbols (insert (ljust 8 t) i indices) h ∙ (rw (kept, other) refl)

slots_from-Indexed :
    (i : ℕ) (symbols : List Text) (indices : Dict Text ℕ)
    → NoneTwice symbols
    → All (IsIndexed (indices_for i symbols indices)) (slots_from i symbols)
unfolding indices_for slots_from NoneTwice
slots_from-Indexed i [] indices h = tt
slots_from-Indexed i (s ∷ symbols) indices (other, h) =
    let indices' = insert (ljust 8 s) i indices in
    (
      lookup-indices_for (i + 1) s symbols indices' other
          ∙ lookup-insert_self (ljust 8 s) i indices,
      slots_from-Indexed (i + 1) symbols indices' h,
    )

first_long-none : (symbols : List Text) → first_long symbols ≡ none → All IsShort symbols
unfolding first_long
first_long-none [] h = tt
first_long-none (s ∷ symbols) h = elim (Bool-cases (ltb 8 (length s))) [
  | inl e ↦ let no : some s ≡ none = rw e at h in cc
  | inr e ↦ (ground arith, first_long-none symbols (rw e at h))
]

first_long-some :
    (symbols : List Text) (s : Text)
    → first_long symbols ≡ some s
    → (i : ℕ) × (get_elem? symbols i ≡ some s) × (8 < length s)
unfolding first_long
first_long-some [] s h = cc
first_long-some (t ∷ symbols) s h = elim (Bool-cases (ltb 8 (length t))) [
  | inl e ↦
      let found : some t ≡ some s = rw e at h in
      let same : t ≡ s = cc in (0, found, rw (← same) (ground arith))
  | inr e ↦ let (i, at_i, long) = first_long-some symbols s (rw e at h) in (suc i, at_i, long)
]

-- The header is printed: its array has the symbols in their order, and the slot of a symbol is the
-- model's index of it.
pub record IsHeaded (symbols : List Text) (exit : Exit) : Type 0 where
  pub code : exit.code ≡ 0
  pub few : length symbols ≤ num_symbols
  pub short : All IsShort symbols
  pub array : read_header exit.out ≡ some (slots_from 0 symbols)
  pub indexed : All (IsIndexed (Market.init symbols 8).symbol_to_idx) (slots_from 0 symbols)

-- Nothing is printed, for too many symbols or a symbol that is too long.
pub record IsRefused (symbols : List Text) (exit : Exit) : Type 0 where
  pub code : exit.code ≡ 1
  pub silent : exit.out ≡ []
  pub reason :
      (num_symbols < length symbols)
      ⊎ ((i : ℕ) × (s : Text) × (get_elem? symbols i ≡ some s) × (8 < length s))

generate-Answers :
    (symbols : List Text)
    → 0 < length symbols
    → NoneTwice symbols
    → IsHeaded symbols (generate symbols) ⊎ IsRefused symbols (generate symbols)
unfolding generate read_header
generate-Answers [] some_ other = absurd (omega arith)
generate-Answers (s ∷ rest) some_ other = elim (Bool-cases (ltb num_symbols (length (s ∷ rest)))) [
  | inl e ↦ rw e (inr (record { code = refl; silent = refl; reason = inl (ground arith) }))
  | inr e ↦ elim (Option-cases (first_long (s ∷ rest))) [
    | inl e' ↦
        let few : length (s ∷ rest) ≤ num_symbols = ground arith in
        let short = first_long-none (s ∷ rest) e' in
        rw (e, e')
          (inl (record {
            code = refl;
            few = few;
            short = short;
            array = read_line-last_line s rest few short;
            indexed = slots_from-Indexed 0 (s ∷ rest) [] other;
          }))
    | inr (long, e') ↦
        let (i, at_i, size) = first_long-some (s ∷ rest) long e' in
        rw (e, e') (inr (record { code = refl; silent = refl; reason = inr (i, long, at_i, size) }))
  ]
]

-- On an argument that names at least one symbol, and none twice, gen_symbols either exits with 0 and
-- prints a header whose array reads back as the symbols in their order, padded to eight characters,
-- each in the slot of its index in the golden model, and then there are at most 16 symbols of at
-- most eight characters each; or it exits with 1 and prints no header, and then there are more than
-- 16 symbols or one is longer than eight characters.
pub main-Answers :
    (prog arg : Text)
    → 0 < length (symbols_of arg)
    → NoneTwice (symbols_of arg)
    → IsHeaded (symbols_of arg) (main (prog ∷ arg ∷ []))
      ⊎ IsRefused (symbols_of arg) (main (prog ∷ arg ∷ []))
unfolding main
main-Answers prog arg some_ other = generate-Answers (symbols_of arg) some_ other
