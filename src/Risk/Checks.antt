-- ===== src/Risk/Checks.antt =====
-- `RiskGate.on_intent` of model/risk.py: what an accept needs, and which counter each intent moves.
use hft_rtl.Prelude.{
  ℕ, zero, suc, ◌+◌, ◌≤◌, ◌<◌, ◌≡◌, refl, ◌↔◌, Bool, true, false, not, some, List, [], ◌∷◌, arith,
  ltb, nat_eq, if◌then◌else◌, get_elem?, set, Option-cases, Bool-cases, inl, inr,
}
use hft_rtl.Prelude.Int.{ℤ, ◌+ℤ◌, sub_ℕ, abs}
use hft_rtl.Prelude.Result.{ok}
use hft_rtl.Strategy.{Intent}
use hft_rtl.Risk.{RiskGate, mid_of, band_of, is_sane, breaks_collar, delta_of, on_intent}

-- The limits that an accepted intent is within, where `old` is the symbol's position before it.
pub record Passes (r : RiskGate) (i : Intent) (old : ℤ) : Type 0 where
  pub bid_there : 0 < i.bid0
  pub not_crossed : i.bid0 < i.ask0
  pub in_collar : abs (sub_ℕ i.price (mid_of i)) ≤ band_of r i
  pub spaced : r.min_order_spacing ≤ r.updates_since_accept
  pub within : abs (old +ℤ delta_of i) ≤ r.max_position

abbrev pub accepted : RiskGate → Intent → ℤ → RiskGate
accepted r i old = record r {
  positions = set r.positions i.symbol_idx (old +ℤ delta_of i);
  updates_since_accept = 0;
  accept_count = r.accept_count + 1;
}

pub on_intent_accepts :
    (r : RiskGate) (i : Intent) (old : ℤ)
    → get_elem? r.positions i.symbol_idx ≡ some old
    → Passes r i old
    → on_intent r i ≡ ok (accepted r i old, true)
unfolding on_intent
on_intent_accepts r i old e p = ground arith

pub on_intent-Passes :
    (r r' : RiskGate) (i : Intent)
    → on_intent r i ≡ ok (r', true)
    → (old : ℤ) × (get_elem? r.positions i.symbol_idx ≡ some old)
      × Passes r i old
      × (r' ≡ accepted r i old)
unfolding on_intent
on_intent-Passes r r' i e = elim (Option-cases (get_elem? r.positions i.symbol_idx)) [
  | inl missing ↦ absurd (ground arith)
  | inr (old, found) ↦ (old, found, ground arith, ground arith)
]

-- The gate accepts an intent exactly if its symbol has a position and it passes every check, and
-- what it then leaves is `accepted`.
pub on_intent-accepts_iff :
    (r r' : RiskGate) (i : Intent)
    → (on_intent r i ≡ ok (r', true)) ↔ (
        (old : ℤ) × (get_elem? r.positions i.symbol_idx ≡ some old)
        × Passes r i old
        × (r' ≡ accepted r i old))
on_intent-accepts_iff r r' i =
    (on_intent-Passes r r' i, λ (old, e, p, is). rw is (on_intent_accepts r i old e p))

-- The counters in the order of the checks, the accepts last.
abbrev pub counters : RiskGate → List ℕ
counters r =
    r.sanity_reject_count ∷ r.collar_reject_count ∷ r.rate_reject_count ∷ r.pos_reject_count
    ∷ r.accept_count ∷ []

-- Which of the checks fail, in their order.
abbrev pub failing : RiskGate → Intent → ℤ → List Bool
failing r i old =
    not (is_sane i)
    ∷ breaks_collar r i
    ∷ ltb r.updates_since_accept r.min_order_spacing
    ∷ ltb r.max_position (abs (old +ℤ delta_of i))
    ∷ []

-- The place of the first `true`, or the length.
unfoldable pub first_true : List Bool → ℕ
first_true [] = 0
first_true (b ∷ bs) = if b then 0 else suc (first_true bs)

unfoldable pub bump_at : ℕ → List ℕ → List ℕ
bump_at i [] = []
bump_at zero (c ∷ cs) = (c + 1) ∷ cs
bump_at (suc i) (c ∷ cs) = c ∷ bump_at i cs

-- Nothing that an accept writes has changed.
abbrev pub SameExposure : RiskGate → RiskGate → Type 0
SameExposure r r' =
    (r'.positions ≡ r.positions) × (r'.updates_since_accept ≡ r.updates_since_accept)

-- An intent for a symbol with a position moves exactly one counter, by one: that of the first check that fails, or that of the
-- accepts if none does, which is also the answer; a rejected intent leaves the positions and the
-- spacing alone.
pub on_intent-counters :
    (r : RiskGate) (i : Intent) (old : ℤ)
    → get_elem? r.positions i.symbol_idx ≡ some old
    → (r' : RiskGate) × (on_intent r i ≡ ok (r', nat_eq (first_true (failing r i old)) 4))
      × (counters r' ≡ bump_at (first_true (failing r i old)) (counters r))
      × (nat_eq (first_true (failing r i old)) 4 ≡ false → SameExposure r r')
unfolding on_intent first_true bump_at
on_intent-counters r i old e = elim (Bool-cases (not (is_sane i))) [
  | inl insane ↦ (
    record r { sanity_reject_count = r.sanity_reject_count + 1 },
    ground arith,
    ground arith,
    λ _. (refl, refl),
  )
  | inr sane ↦ elim (Bool-cases (breaks_collar r i)) [
    | inl outside ↦ (
      record r { collar_reject_count = r.collar_reject_count + 1 },
      ground arith,
      ground arith,
      λ _. (refl, refl),
    )
    | inr inside ↦ elim (Bool-cases (ltb r.updates_since_accept r.min_order_spacing)) [
      | inl early ↦ (
        record r { rate_reject_count = r.rate_reject_count + 1 },
        ground arith,
        ground arith,
        λ _. (refl, refl),
      )
      | inr late ↦ elim (Bool-cases (ltb r.max_position (abs (old +ℤ delta_of i)))) [
        | inl over ↦ (
          record r { pos_reject_count = r.pos_reject_count + 1 },
          ground arith,
          ground arith,
          λ _. (refl, refl),
        )
        | inr under ↦ (accepted r i old, ground arith, ground arith, λ h. absurd (ground arith))
      ]
    ]
  ]
]
