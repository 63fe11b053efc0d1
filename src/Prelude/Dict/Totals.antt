-- ===== src/Prelude/Dict/Totals.antt =====
-- The sum of a number over the values of a dict, under each update.
use hft_rtl.Prelude.{ℕ, ◌+◌, ◌≤◌, ◌≡◌, refl, none, some, [], ◌∷◌, arith, Key}
use hft_rtl.Prelude.Dict.{Dict, lookup, insert, erase, lookup-insert, lookup-erase}

module _ {ℓ} {K V : Type ℓ} ⦃e : Key K⦄ where
  -- No key is listed twice.
  abbrev pub IsDistinct : Dict K V → Type ℓ
  IsDistinct [] = Unit {ℓ}
  IsDistinct ((k, v) ∷ d) = (lookup k d ≡ none) × IsDistinct d

  pub insert-IsDistinct : (k : K) (v : V) (d : Dict K V) → IsDistinct d → IsDistinct (insert k v d)
  unfolding insert lookup
  insert-IsDistinct k v [] h = (refl, tt)
  insert-IsDistinct k v ((j, w) ∷ d) h =
      ground
        (arith, e.same_iff k j, e.same_iff j k, insert-IsDistinct k v d h.1, lookup-insert j k v d)

  pub erase-IsDistinct : (k : K) (d : Dict K V) → IsDistinct d → IsDistinct (erase k d)
  unfolding erase
  erase-IsDistinct k [] h = tt
  erase-IsDistinct k ((j, w) ∷ d) h =
      ground (arith, e.same_iff j k, erase-IsDistinct k d h.1, lookup-erase j k d)

  pub erase_absent : (k : K) (d : Dict K V) → lookup k d ≡ none → erase k d ≡ d
  unfolding erase lookup
  erase_absent k [] h = refl
  erase_absent k ((j, w) ∷ d) h = ground (arith, erase_absent k d)

  module _ (f : V → ℕ) where
    unfoldable pub total : Dict K V → ℕ
    total [] = 0
    total ((k, v) ∷ d) = f v + total d

    pub total-insert_new :
        (k : K) (v : V) (d : Dict K V) → lookup k d ≡ none → total (insert k v d) ≡ total d + f v
    unfolding total insert lookup
    total-insert_new k v [] h = omega arith
    total-insert_new k v ((j, w) ∷ d) h = ground (arith, total-insert_new k v d)

    pub total-insert :
        (k : K) (v old : V) (d : Dict K V)
        → lookup k d ≡ some old
        → total (insert k v d) + f old ≡ total d + f v
    unfolding total insert lookup
    total-insert k v old [] h = cc
    total-insert k v old ((j, w) ∷ d) h = ground (arith, total-insert k v old d)

    pub total-erase :
        (k : K) (old : V) (d : Dict K V)
        → IsDistinct d
        → lookup k d ≡ some old
        → total (erase k d) + f old ≡ total d
    unfolding total erase lookup
    total-erase k old [] u h = cc
    total-erase k old ((j, w) ∷ d) u h =
        ground (arith, e.same_iff k j, erase_absent k d, total-erase k old d u.1)

    pub le-total : (k : K) (v : V) (d : Dict K V) → lookup k d ≡ some v → f v ≤ total d
    unfolding total lookup
    le-total k v [] h = cc
    le-total k v ((j, w) ∷ d) h = ground (arith, le-total k v d)
