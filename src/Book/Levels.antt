-- ===== src/Book/Levels.antt =====
-- One level list of model/book.py, and the list that a book of unlimited depth would hold. The
-- loops of `add` and `reduce` are compared with it.
use hft_rtl.Prelude.{
  ℕ, zero, suc, ◌+◌, ◌-◌, ◌≤◌, ◌≡◌, refl, ap, Bool, true, false, none, some, List, [], ◌∷◌, ◌++◌,
  arith, nat_eq, if◌then◌else◌, length, take, Option-cases, inl, inr,
}
use hft_rtl.Book.{
  Level, is_better, add_to_level, last_level, insert_index, insert_at, pop_last, reduce_level,
}

-- Every level comes after `price`.
abbrev pub AllWorse : Bool → ℕ → List Level → Type 0
AllWorse d price [] = Unit
AllWorse d price (l ∷ ls) = (is_better d price l.price ≡ true) × AllWorse d price ls

-- Best first, and no price twice.
abbrev pub IsSorted : Bool → List Level → Type 0
IsSorted d [] = Unit
IsSorted d (l ∷ ls) = AllWorse d l.price ls × IsSorted d ls

-- The shares that rest at a price, 0 where there is no level.
unfoldable pub shares_at : ℕ → List Level → ℕ
shares_at q [] = 0
shares_at q (l ∷ ls) = if nat_eq l.price q then l.shares else shares_at q ls

-- Adding shares at a price with no limit on the depth.
unfoldable pub full_add : Bool → ℕ → ℕ → List Level → List Level
full_add d price shares [] = record { price = price; shares = shares } ∷ []
full_add d price shares (l ∷ ls) =
    if nat_eq l.price price
    then record l { shares = l.shares + shares } ∷ ls
    else if is_better d price l.price
    then record { price = price; shares = shares } ∷ l ∷ ls
    else l ∷ full_add d price shares ls

AllWorse-trans :
    (d : Bool) (p q : ℕ) (ls : List Level)
    → is_better d p q ≡ true
    → AllWorse d q ls
    → AllWorse d p ls
AllWorse-trans d p q [] h a = tt
AllWorse-trans true p q (l ∷ ls) h a = (ground arith, AllWorse-trans true p q ls h a.1)
AllWorse-trans false p q (l ∷ ls) h a = (ground arith, AllWorse-trans false p q ls h a.1)

pub shares_at-AllWorse : (d : Bool) (p : ℕ) (ls : List Level) → AllWorse d p ls → shares_at p ls ≡ 0
unfolding shares_at
shares_at-AllWorse d p [] a = refl
shares_at-AllWorse true p (l ∷ ls) a = ground (arith, shares_at-AllWorse true p ls a.1)
shares_at-AllWorse false p (l ∷ ls) a = ground (arith, shares_at-AllWorse false p ls a.1)

pub shares_at-full_add :
    (d : Bool) (p s q : ℕ) (ls : List Level)
    → IsSorted d ls
    → shares_at q (full_add d p s ls) ≡ (if nat_eq p q then shares_at q ls + s else shares_at q ls)
unfolding shares_at full_add
shares_at-full_add d p s q [] h = ground arith
shares_at-full_add true p s q (l ∷ ls) h = ground (
  arith,
  shares_at-full_add true p s q ls h.1,
  λ (b : is_better true p l.price ≡ true).
      shares_at-AllWorse true p ls (AllWorse-trans true p l.price ls b h.0),
)
shares_at-full_add false p s q (l ∷ ls) h = ground (
  arith,
  shares_at-full_add false p s q ls h.1,
  λ (b : is_better false p l.price ≡ true).
      shares_at-AllWorse false p ls (AllWorse-trans false p l.price ls b h.0),
)

AllWorse-full_add :
    (d : Bool) (q p s : ℕ) (ls : List Level)
    → is_better d q p ≡ true
    → AllWorse d q ls
    → AllWorse d q (full_add d p s ls)
unfolding full_add
AllWorse-full_add d q p s [] h a = (h, tt)
AllWorse-full_add d q p s (l ∷ ls) h a = ground (arith, AllWorse-full_add d q p s ls h a.1)

is_better_total :
    (d : Bool) (p q : ℕ) → is_better d p q ≡ false → nat_eq q p ≡ false → is_better d q p ≡ true
is_better_total true p q h e = ground arith
is_better_total false p q h e = ground arith

pub full_add-IsSorted :
    (d : Bool) (p s : ℕ) (ls : List Level) → IsSorted d ls → IsSorted d (full_add d p s ls)
unfolding full_add
full_add-IsSorted d p s [] h = (tt, tt)
full_add-IsSorted d p s (l ∷ ls) h = ground (
  arith,
  full_add-IsSorted d p s ls h.1,
  is_better_total d p l.price,
  AllWorse-full_add d l.price p s ls,
  AllWorse-trans d p l.price ls,
)

pub take-IsSorted : (d : Bool) (n : ℕ) (ls : List Level) → IsSorted d ls → IsSorted d (take n ls)
take-IsSorted d zero ls h = tt
take-IsSorted d (suc n) [] h = tt
take-IsSorted d (suc n) (l ∷ ls) h = (take-AllWorse n ls h.0, take-IsSorted d n ls h.1)
  where
    take-AllWorse :
        (m : ℕ) (ks : List Level) → AllWorse d l.price ks → AllWorse d l.price (take m ks)
    take-AllWorse zero ks a = tt
    take-AllWorse (suc m) [] a = tt
    take-AllWorse (suc m) (k ∷ ks) a = (a.0, take-AllWorse m ks a.1)

add_to_level-AllWorse :
    (d : Bool) (p s : ℕ) (ls : List Level) → AllWorse d p ls → add_to_level p s ls ≡ none
unfolding add_to_level
add_to_level-AllWorse d p s [] a = refl
add_to_level-AllWorse true p s (l ∷ ls) a = ground (arith, add_to_level-AllWorse true p s ls a.1)
add_to_level-AllWorse false p s (l ∷ ls) a = ground (arith, add_to_level-AllWorse false p s ls a.1)

-- The first loop of `add` finds the level of the price, and then does what `full_add` does.
pub add_to_level-full_add :
    (d : Bool) (p s : ℕ) (ls : List Level) {ls' : List Level}
    → IsSorted d ls
    → add_to_level p s ls ≡ some ls'
    → (ls' ≡ full_add d p s ls) × (length ls' ≡ length ls)
unfolding add_to_level full_add
add_to_level-full_add d p s [] h e = cc
add_to_level-full_add d p s (l ∷ ls) h e = elim (Option-cases (add_to_level p s ls)) [
  | inl absent ↦ ground arith
  | inr (ks, found) ↦ ground (
    arith,
    add_to_level-full_add d p s ls h.1 found,
    λ (b : is_better d p l.price ≡ true).
        add_to_level-AllWorse d p s ls (AllWorse-trans d p l.price ls b h.0),
  )
]

insert_index-suc :
    (d : Bool) (p i : ℕ) (ls : List Level)
    → insert_index d p (i + 1) ls ≡ suc (insert_index d p i ls)
unfolding insert_index
insert_index-suc d p i [] = omega arith
insert_index-suc d p i (l ∷ ls) = ground (arith, insert_index-suc d p (i + 1) ls)

-- With no level of the price, the second loop and `list.insert` do what `full_add` does.
pub insert_at-full_add :
    (d : Bool) (p s : ℕ) (ls : List Level)
    → add_to_level p s ls ≡ none
    → insert_at (insert_index d p 0 ls) (record { price = p; shares = s }) ls ≡ full_add d p s ls
unfolding add_to_level insert_index insert_at full_add
insert_at-full_add d p s [] e = refl
insert_at-full_add d p s (l ∷ ls) e =
    ground (arith, insert_index-suc d p 0 ls, insert_at-full_add d p s ls)

pub length-full_add :
    (d : Bool) (p s : ℕ) (ls : List Level)
    → add_to_level p s ls ≡ none
    → length (full_add d p s ls) ≡ suc (length ls)
unfolding add_to_level full_add
length-full_add d p s [] e = refl
length-full_add d p s (l ∷ ls) e = ground (arith, length-full_add d p s ls)

pub pop_last-take : {A : Type 0} (n : ℕ) (l : List A) → length l ≡ suc n → pop_last l ≡ take n l
unfolding pop_last
pop_last-take n [] h = absurd (omega arith)
pop_last-take zero (x ∷ []) h = refl
pop_last-take (suc n) (x ∷ []) h = absurd (omega arith)
pop_last-take zero (x ∷ y ∷ l) h = absurd (omega arith)
pop_last-take (suc n) (x ∷ y ∷ l) h = ap (◌∷◌ x) (pop_last-take n (y ∷ l) (omega arith))

last_level-AllWorse :
    (d : Bool) (q : ℕ) (ls : List Level) {worst : Level}
    → AllWorse d q ls
    → last_level ls ≡ some worst
    → is_better d q worst.price ≡ true
unfolding last_level
last_level-AllWorse d q [] a e = cc
last_level-AllWorse d q (l ∷ []) a e = ground arith
last_level-AllWorse d q (l ∷ l' ∷ ls) a e = last_level-AllWorse d q (l' ∷ ls) a.1 e

-- A price that is worse than the last level of a sorted list goes to its end.
pub full_add_worst :
    (d : Bool) (p s : ℕ) (ls : List Level) {worst : Level}
    → IsSorted d ls
    → last_level ls ≡ some worst
    → is_better d worst.price p ≡ true
    → full_add d p s ls ≡ ls ++ record { price = p; shares = s } ∷ []
unfolding full_add last_level
full_add_worst d p s [] h e b = cc
full_add_worst true p s (l ∷ []) h e b = ground arith
full_add_worst false p s (l ∷ []) h e b = ground arith
full_add_worst true p s (l ∷ l' ∷ ls) h e b = ground (
  arith,
  last_level-AllWorse true l.price (l' ∷ ls) h.0 e,
  full_add_worst true p s (l' ∷ ls) h.1 e b,
)
full_add_worst false p s (l ∷ l' ∷ ls) h e b = ground (
  arith,
  last_level-AllWorse false l.price (l' ∷ ls) h.0 e,
  full_add_worst false p s (l' ∷ ls) h.1 e b,
)

last_level-some : (l : Level) (ls : List Level) → (w : Level) × (last_level (l ∷ ls) ≡ some w)
unfolding last_level
last_level-some l [] = (l, refl)
last_level-some l (k ∷ ls) = last_level-some k ls

-- `levels[-1]` is there unless the list is empty.
pub last_level_cases : (ls : List Level) → (1 ≤ length ls) → (w : Level) × (last_level ls ≡ some w)
last_level_cases [] h = absurd (omega arith)
last_level_cases (l ∷ ls) h = last_level-some l ls

-- The loop of `reduce` passes over a list without the price.
pub reduce_level-none :
    (d : Bool) (p s : ℕ) (ls : List Level) → reduce_level p s ls ≡ none → shares_at p ls ≡ 0
unfolding reduce_level shares_at
reduce_level-none d p s [] e = refl
reduce_level-none d p s (l ∷ ls) e = ground (arith, reduce_level-none d p s ls)

AllWorse-reduce_level :
    (d : Bool) (q p s : ℕ) (ls : List Level) {ls' : List Level}
    → AllWorse d q ls
    → reduce_level p s ls ≡ some ls'
    → AllWorse d q ls'
unfolding reduce_level
AllWorse-reduce_level d q p s [] a e = cc
AllWorse-reduce_level d q p s (l ∷ ls) a e = elim (Option-cases (reduce_level p s ls)) [
  | inl absent ↦ ground arith
  | inr (ks, found) ↦ ground (arith, AllWorse-reduce_level d q p s ls a.1 found)
]

pub reduce_level-IsSorted :
    (d : Bool) (p s : ℕ) (ls : List Level) {ls' : List Level}
    → IsSorted d ls
    → reduce_level p s ls ≡ some ls'
    → IsSorted d ls'
unfolding reduce_level
reduce_level-IsSorted d p s [] h e = cc
reduce_level-IsSorted d p s (l ∷ ls) h e = elim (Option-cases (reduce_level p s ls)) [
  | inl absent ↦ ground arith
  | inr (ks, found) ↦ ground (
    arith,
    reduce_level-IsSorted d p s ls h.1 found,
    AllWorse-reduce_level d l.price p s ls h.0 found,
  )
]

pub length-reduce_level :
    (p s : ℕ) (ls : List Level) {ls' : List Level}
    → reduce_level p s ls ≡ some ls'
    → length ls' ≤ length ls
unfolding reduce_level
length-reduce_level p s [] e = cc
length-reduce_level p s (l ∷ ls) e = elim (Option-cases (reduce_level p s ls)) [
  | inl absent ↦ ground arith
  | inr (ks, found) ↦ ground (arith, length-reduce_level p s ls found)
]

-- A reduction takes shares from the level of its price, down to 0, and from no other.
pub shares_at-reduce_level :
    (d : Bool) (p s q : ℕ) (ls : List Level) {ls' : List Level}
    → IsSorted d ls
    → reduce_level p s ls ≡ some ls'
    → shares_at q ls' ≡ (if nat_eq p q then shares_at q ls - s else shares_at q ls)
unfolding reduce_level shares_at
shares_at-reduce_level d p s q [] h e = cc
shares_at-reduce_level d p s q (l ∷ ls) h e = elim (Option-cases (reduce_level p s ls)) [
  | inl absent ↦ ground (arith, shares_at-AllWorse d l.price ls h.0)
  | inr (ks, found) ↦
      ground
        (arith, shares_at-AllWorse d l.price ls h.0, shares_at-reduce_level d p s q ls h.1 found)
]
