-- ===== src/Prelude/Dict.antt =====
-- A Python dict as an association list in insertion order. `del` and `pop` leave no entry of the
-- key behind, and an assignment to a key that is there keeps its place.
pub mod Totals
use hft_rtl.Prelude.{
  ◌≡◌, refl, Bool, true, false, Option, none, some, List, [], ◌∷◌, arith, Key, ◌==◌, if◌then◌else◌,
  Bool-cases, ◌⊎◌, inl, inr,
}

abbrev pub Dict {ℓ} : Type ℓ → Type ℓ → Type ℓ
Dict K V = List (K × V)

module _ {ℓ} {K V : Type ℓ} ⦃e : Key K⦄ where
  unfoldable pub lookup : K → Dict K V → Option V
  lookup k [] = none
  lookup k ((j, v) ∷ d) = if k == j then some v else lookup k d

  unfoldable pub insert : K → V → Dict K V → Dict K V
  insert k v [] = (k, v) ∷ []
  insert k v ((j, w) ∷ d) = if k == j then (j, v) ∷ d else (j, w) ∷ insert k v d

  unfoldable pub erase : K → Dict K V → Dict K V
  erase k [] = []
  erase k ((j, w) ∷ d) = if k == j then erase k d else (j, w) ∷ erase k d

  pub lookup-insert :
      (j k : K) (v : V) (d : Dict K V)
      → lookup j (insert k v d) ≡ (if j == k then some v else lookup j d)
  unfolding lookup insert
  lookup-insert j k v [] = refl
  lookup-insert j k v ((i, w) ∷ d) =
      ground (arith, e.same_iff j k, e.same_iff k i, e.same_iff j i, lookup-insert j k v d)

  pub lookup-erase :
      (j k : K) (d : Dict K V) → lookup j (erase k d) ≡ (if j == k then none else lookup j d)
  unfolding lookup erase
  lookup-erase j k [] = ground arith
  lookup-erase j k ((i, w) ∷ d) =
      ground (arith, e.same_iff j k, e.same_iff k i, e.same_iff j i, lookup-erase j k d)

  -- What is found after an insertion is what was inserted, or was there before.
  pub lookup-insert_cases :
      (j k : K) (v w : V) (d : Dict K V)
      → lookup j (insert k v d) ≡ some w
      → ((j ≡ k) × (v ≡ w)) ⊎ (lookup j d ≡ some w)
  lookup-insert_cases j k v w d h = elim (Bool-cases (j == k)) [
    | inl same ↦ inl ((e.same_iff j k).0 same, ground (arith, lookup-insert j k v d))
    | inr other ↦ inr (ground (arith, lookup-insert j k v d))
  ]

  -- A key that is there stays there.
  pub lookup-insert-some :
      (j k : K) (v w : V) (d : Dict K V)
      → lookup j d ≡ some w
      → (x : V) × (lookup j (insert k v d) ≡ some x)
  lookup-insert-some j k v w d h = elim (Bool-cases (j == k)) [
    | inl same ↦ (v, ground (arith, lookup-insert j k v d))
    | inr other ↦ (w, ground (arith, lookup-insert j k v d))
  ]

  pub lookup-erase-some :
      (j k : K) (w : V) (d : Dict K V) → lookup j (erase k d) ≡ some w → lookup j d ≡ some w
  lookup-erase-some j k w d h = ground (arith, lookup-erase j k d)

  pub lookup-insert_self : (k : K) (v : V) (d : Dict K V) → lookup k (insert k v d) ≡ some v
  lookup-insert_self k v d = ground (arith, lookup-insert k k v d, e.same_iff k k)
