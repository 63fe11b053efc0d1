-- ===== src/Strategy/Cooldown.antt =====
-- The cooldown of model/strategy.py over runs of updates, those of other symbols in between.
use native.Mathlib.Decide.{dec_lt}
use hft_rtl.Prelude.{
  ℕ, ◌+◌, ◌≤◌, ◌<◌, ◌≡◌, refl, ◌∙◌, ◌≢◌, inl, inr, Option, none, some, List, [], ◌∷◌, arith, leb,
  nat_eq, nat_eq_iff, if◌then◌else◌, get_elem?, get_elem?-set_self, get_elem?-set_ne,
  lt_of_get_elem?, Bool-cases,
}
use hft_rtl.Prelude.Result.{ok}
use hft_rtl.Market.{Event}
use hft_rtl.Strategy.{Strategy, Intent, new_state_of, next_since, on_update}
use hft_rtl.Strategy.Edge.{on_update-eq-ok, make_intent_suppressed, on_update-Edge}

-- The updates of a feed, one after the other, with the intents that they gave.
pub data Run : Strategy → List Event → List (Option Intent) → Strategy → Type 0 where
  done : {s : Strategy} → Run s [] [] s
  more :
      {s s' s'' : Strategy} {ev : Event} {evs : List Event} {r : Option Intent}
      {rs : List (Option Intent)}
      → on_update s ev ≡ ok (s', r)
      → Run s' evs rs s''
      → Run s (ev ∷ evs) (r ∷ rs) s''

-- How many of the updates are of this symbol, and how many of the intents.
unfoldable pub updates_of : ℕ → List Event → ℕ
updates_of idx [] = 0
updates_of idx (ev ∷ evs) = (if nat_eq ev.symbol_idx idx then 1 else 0) + updates_of idx evs

abbrev pub fires : ℕ → Option Intent → ℕ
fires idx none = 0
fires idx (some i) = if nat_eq i.symbol_idx idx then 1 else 0

unfoldable pub fires_of : ℕ → List (Option Intent) → ℕ
fires_of idx [] = 0
fires_of idx (r ∷ rs) = fires idx r + fires_of idx rs

fires_other :
    (s s' : Strategy) (ev : Event) (r : Option Intent) (idx : ℕ)
    → ev.symbol_idx ≢ idx
    → on_update s ev ≡ ok (s', r)
    → fires idx r ≡ 0
fires_other s s' ev none idx ne e = refl
fires_other s s' ev (some i) idx ne e =
    let (_, _, _, _, _, _, at, _, _) = on_update-Edge s s' ev i e in ground arith

-- An update of another symbol leaves this symbol's cooldown alone, and gives it no intent.
on_update_other :
    (s s' : Strategy) (ev : Event) (r : Option Intent) (idx : ℕ)
    → ev.symbol_idx ≢ idx
    → on_update s ev ≡ ok (s', r)
    → (get_elem? s'.updates_since_fire idx ≡ get_elem? s.updates_since_fire idx)
      × (s'.cooldown_updates ≡ s.cooldown_updates)
      × (fires idx r ≡ 0)
on_update_other s s' ev r idx ne e =
    let (old, since, e1, e2, e3, is) = on_update-eq-ok s s' ev r e in
    let same = get_elem?-set_ne s.updates_since_fire (next_since s.cooldown_updates since r) ne in
    (rw is same, rw is refl, fires_other s s' ev r idx ne e)

-- An update of a cooling symbol counts, and gives no intent.
on_update_cooling :
    (s s' : Strategy) (ev : Event) (r : Option Intent) (k : ℕ)
    → get_elem? s.updates_since_fire ev.symbol_idx ≡ some (some k)
    → k < s.cooldown_updates
    → on_update s ev ≡ ok (s', r)
    → (get_elem? s'.updates_since_fire ev.symbol_idx
        ≡ some (if leb s.cooldown_updates (k + 1) then none else some (k + 1)))
      × (s'.cooldown_updates ≡ s.cooldown_updates)
      × (r ≡ none)
on_update_cooling s s' ev r k at cool e =
    let (old, since, e1, e2, e3, is) = on_update-eq-ok s s' ev r e in
    let cooling : since ≡ some k = cc in
    let silent : r ≡ none =
      make_intent_suppressed s ev old (new_state_of s ev) since r (rw cooling (ground arith)) e3 in
    let next : next_since s.cooldown_updates since r
        ≡ (if leb s.cooldown_updates (k + 1) then none else some (k + 1)) =
      rw (cooling, silent) refl in
    let here =
      get_elem?-set_self s.updates_since_fire ev.symbol_idx (next_since s.cooldown_updates since r)
        (lt_of_get_elem? s.updates_since_fire ev.symbol_idx at) in
    (rw is (rw (← next) here), rw is refl, silent)

Run_untouched :
    {s s' : Strategy} {evs : List Event} {rs : List (Option Intent)} (idx : ℕ)
    → Run s evs rs s'
    → updates_of idx evs ≡ 0
    → (fires_of idx rs ≡ 0)
      × (get_elem? s'.updates_since_fire idx ≡ get_elem? s.updates_since_fire idx)
unfolding updates_of fires_of
Run_untouched idx done z = (refl, refl)
Run_untouched idx (more {s} {s'} {ev = ev} {r = r} e run) z =
    let (same, _, silent) = on_update_other s s' ev r idx (ground arith) e in
    let (rest, kept) = Run_untouched idx run (ground arith) in (omega arith, kept ∙ same)

-- The cooldown once `k` updates were seen since the symbol fired.
abbrev pub cooled : ℕ → ℕ → Option ℕ
cooled cooldown_updates k = if leb cooldown_updates k then none else some k

-- While a cooldown lasts no update of any kind gives the symbol an intent.
Run_cooling :
    {s s' : Strategy} {evs : List Event} {rs : List (Option Intent)} (idx k j : ℕ)
    → Run s evs rs s'
    → get_elem? s.updates_since_fire idx ≡ some (some k)
    → k < s.cooldown_updates
    → k + updates_of idx evs ≡ j
    → j ≤ s.cooldown_updates
    → (fires_of idx rs ≡ 0)
      × (get_elem? s'.updates_since_fire idx ≡ some (cooled s.cooldown_updates j))
unfolding updates_of fires_of
Run_cooling idx k j (done {s}) at cool sum fits = (refl, ground arith)
Run_cooling idx k j (more {s} {s'} {ev = ev} {evs = evs} {r = r} e run) at cool sum fits =
    elim (Bool-cases (nat_eq ev.symbol_idx idx)) [
      | inl same ↦
          let here : ev.symbol_idx ≡ idx = (nat_eq_iff ev.symbol_idx idx).0 same in
          let (next, c, silent) = on_update_cooling s s' ev r k (rw here at) cool e in
          let next' : get_elem? s'.updates_since_fire idx
              ≡ some (cooled s.cooldown_updates (k + 1)) =
            rw here at next in
          let quiet : fires idx r ≡ 0 = rw silent in
          elim (dec_lt (k + 1) s.cooldown_updates) [
            | yes goes_on ↦
                let at' : get_elem? s'.updates_since_fire idx ≡ some (some (k + 1)) =
                  ground arith in
                let ih =
                  Run_cooling idx (k + 1) j run at' (rw c goes_on) (ground arith) (rw c fits) in
                (omega (arith, ih.0), rw (← c) ih.1)
            | no over ↦
                let (rest, kept) = Run_untouched idx run (ground arith) in
                (omega arith, ground arith)
          ]
      | inr other ↦
          let (kept, c, silent) = on_update_other s s' ev r idx (ground arith) e in
          let ih = Run_cooling idx k j run (kept ∙ at) (rw c cool) (ground arith) (rw c fits) in
          (omega (arith, ih.0), rw (← c) ih.1)
    ]

fired_at :
    (s s' : Strategy) (ev : Event) (i : Intent)
    → on_update s ev ≡ ok (s', some i)
    → (get_elem? s'.updates_since_fire ev.symbol_idx ≡ some (some 0))
      × (s'.cooldown_updates ≡ s.cooldown_updates)
fired_at s s' ev i e =
    let (old, since, e1, e2, e3, is) = on_update-eq-ok s s' ev (some i) e in
    let here =
      get_elem?-set_self s.updates_since_fire ev.symbol_idx (some 0)
        (lt_of_get_elem? s.updates_since_fire ev.symbol_idx e2) in
    (rw is here, rw is refl)

-- Let the cooldown be positive. After an intent, a run of updates with at most `cooldown_updates` of
-- the same symbol, and any of other symbols, gives no intent for it; its cooldown counter is then at
-- the number of those updates, or off if that is `cooldown_updates`.
pub Run-cooldown :
    (s s' s'' : Strategy) (ev : Event) (i : Intent) (evs : List Event) (rs : List (Option Intent))
    → on_update s ev ≡ ok (s', some i)
    → Run s' evs rs s''
    → 0 < s.cooldown_updates
    → updates_of ev.symbol_idx evs ≤ s.cooldown_updates
    → (fires_of ev.symbol_idx rs ≡ 0)
      × (get_elem? s''.updates_since_fire ev.symbol_idx
          ≡ some (cooled s.cooldown_updates (updates_of ev.symbol_idx evs)))
Run-cooldown s s' s'' ev i evs rs e run cool fits =
    let (at, c) = fired_at s s' ev i e in
    let (quiet, left) =
      Run_cooling ev.symbol_idx 0 (updates_of ev.symbol_idx evs) run at (rw c cool) (omega arith)
        (rw c fits) in
    (quiet, rw (← c) left)
