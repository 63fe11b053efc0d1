-- ===== src/Strategy/Edge.antt =====
-- When `Strategy.on_update` of model/strategy.py fires: exactly on an edge into LONG or SHORT,
-- outside a cooldown, at a price that is there.
use hft_rtl.Prelude.{
  ℕ, ◌+◌, ◌*◌, ◌^◌, ◌<◌, ◌≤◌, ◌↔◌, refl, ◌≡◌, ◌≢◌, ◌⊎◌, inl, inr, Bool, true, false, ◌&&◌, not,
  Option, none, some, List, [], ◌∷◌, arith, get_elem?, set, get_elem?-set_self, lt_of_get_elem?,
  Option-cases,
}
use hft_rtl.Prelude.Result.{ok, Result-cases}
use hft_rtl.Book.{Level}
use hft_rtl.Market.{Event}
use hft_rtl.Strategy.{
  Strategy, State, long, short, Intent, mass, classify, new_state_of, is_suppressed, is_long,
  is_short, first_level, make_intent, price_intent, next_since, count_intent, on_update,
}

-- The strategy after an update that gave `r`, where the symbol's cooldown stood at `since`.
abbrev pub updated : Strategy → Event → Option ℕ → Option Intent → Strategy
updated s ev since r = record s {
  state = set s.state ev.symbol_idx (new_state_of s ev);
  updates_since_fire =
      set s.updates_since_fire ev.symbol_idx (next_since s.cooldown_updates since r);
  intent_count = s.intent_count + count_intent r;
}

-- An update that returns read the symbol's two cells, and wrote both.
pub on_update-eq-ok :
    (s s' : Strategy) (ev : Event) (r : Option Intent)
    → on_update s ev ≡ ok (s', r)
    → (old : State) × (since : Option ℕ) × (get_elem? s.state ev.symbol_idx ≡ some old)
      × (get_elem? s.updates_since_fire ev.symbol_idx ≡ some since)
      × (make_intent s ev old (new_state_of s ev) since ≡ ok r)
      × (s' ≡ updated s ev since r)
unfolding on_update
on_update-eq-ok s s' ev r e = elim (Option-cases (get_elem? s.state ev.symbol_idx)) [
  | inl e1 ↦ absurd (ground arith)
  | inr (old, e1) ↦ elim (Option-cases (get_elem? s.updates_since_fire ev.symbol_idx)) [
    | inl e2 ↦ absurd (ground arith)
    | inr (since, e2) ↦ elim (Result-cases (make_intent s ev old (new_state_of s ev) since)) [
      | inl (r', e3) ↦ (old, since, e1, e2, ground arith, ground arith)
      | inr (x, e3) ↦ absurd (ground arith)
    ]
  ]
]

-- The cooldown of the symbol is over, or there is none.
abbrev pub IsCalm : ℕ → Option ℕ → Type 0
IsCalm cooldown_updates none = Unit
IsCalm cooldown_updates (some k) = cooldown_updates ≤ k

pub suppressed_iff :
    (cooldown_updates : ℕ) (since : Option ℕ)
    → (is_suppressed cooldown_updates since ≡ false) ↔ IsCalm cooldown_updates since
suppressed_iff cooldown_updates none = (λ e. tt, λ h. refl)
suppressed_iff cooldown_updates (some k) = ground arith

-- The update has a level on both sides, and these are the prices of the first two.
abbrev pub IsQuoted : Event → ℕ → ℕ → Type 0
IsQuoted ev bid0 ask0 =
    (bid : Level) × (ask : Level) × (bids : List Level) × (asks : List Level) × (ev.bid
      ≡ bid ∷ bids)
    × (ev.ask ≡ ask ∷ asks)
    × (bid.price ≡ bid0)
    × (ask.price ≡ ask0)

-- What an intent says, and the edge that it stands for.
abbrev pub BuysOn : Strategy → Event → State → Intent → Type 0
BuysOn s ev old i =
    (i.side ≡ b'B' ∷ [])
    × (old ≢ long)
    × (mass 0 ev.ask * 2 ^ s.thresh_log2 < mass 0 ev.bid)
    × (i.price ≡ i.ask0)

abbrev pub SellsOn : Strategy → Event → State → Intent → Type 0
SellsOn s ev old i =
    (i.side ≡ b'S' ∷ [])
    × (old ≢ short)
    × (mass 0 ev.bid * 2 ^ s.thresh_log2 < mass 0 ev.ask)
    × (i.price ≡ i.bid0)

price_intent-some :
    (s : Strategy) (idx : ℕ) (buy sell : Bool) (bid0 ask0 : ℕ) (i : Intent)
    → price_intent s idx buy sell bid0 ask0 ≡ some i
    → ((buy ≡ true) × (i.side ≡ b'B' ∷ []) × (i.price ≡ i.ask0)
        ⊎ (sell ≡ true) × (i.side ≡ b'S' ∷ []) × (i.price ≡ i.bid0))
      × (0 < i.price)
      × (i.shares ≡ s.order_shares)
      × (i.symbol_idx ≡ idx)
      × (bid0 ≡ i.bid0)
      × (ask0 ≡ i.ask0)
unfolding price_intent
price_intent-some s idx true sell bid0 ask0 i e = ground arith
price_intent-some s idx false true bid0 ask0 i e = ground arith
price_intent-some s idx false false bid0 ask0 i e = cc

first_level-ok :
    (levels : List Level) (l : Level)
    → first_level levels ≡ ok l
    → (rest : List Level) × (levels ≡ l ∷ rest)
first_level-ok [] l e = cc
first_level-ok (k ∷ rest) l e = (rest, cc)

classify_cases :
    (t b a : ℕ)
    → (is_long (classify t b a) ≡ true → a * 2 ^ t < b)
      × (is_short (classify t b a) ≡ true → b * 2 ^ t < a)
unfolding classify
classify_cases t b a = ground arith

edge_cases :
    (new old : State)
    → (is_long new && not (is_long old) ≡ true → (is_long new ≡ true) × (old ≢ long))
      × (is_short new && not (is_short old) ≡ true → (is_short new ≡ true) × (old ≢ short))
edge_cases new old = ground arith

pub make_intent-some :
    (s : Strategy) (ev : Event) (old : State) (since : Option ℕ) (i : Intent)
    → make_intent s ev old (new_state_of s ev) since ≡ ok (some i)
    → (BuysOn s ev old i ⊎ SellsOn s ev old i)
      × (0 < i.price)
      × (i.shares ≡ s.order_shares)
      × (i.symbol_idx ≡ ev.symbol_idx)
      × IsQuoted ev i.bid0 i.ask0
      × IsCalm s.cooldown_updates since
unfolding make_intent
make_intent-some s ev old since i e = elim (Result-cases (first_level ev.bid)) [
  | inl (b, eb) ↦ elim (Result-cases (first_level ev.ask)) [
    | inl (a, ea) ↦
        let buy = is_long (new_state_of s ev) && not (is_long old) in
        let sell = is_short (new_state_of s ev) && not (is_short old) in
        let priced : price_intent s ev.symbol_idx buy sell b.price a.price ≡ some i =
          ground arith in
        let free : is_suppressed s.cooldown_updates since ≡ false = ground arith in
        let calm = (suppressed_iff s.cooldown_updates since).0 free in
        let (bids, is_bids) = first_level-ok ev.bid b eb in
        let (asks, is_asks) = first_level-ok ev.ask a ea in
        let (which, positive, size, idx, bid, ask) =
          price_intent-some s ev.symbol_idx buy sell b.price a.price i priced in
        let quoted : IsQuoted ev i.bid0 i.ask0 = (b, a, bids, asks, is_bids, is_asks, bid, ask) in
        let mass_of = classify_cases s.thresh_log2 (mass 0 ev.bid) (mass 0 ev.ask) in
        elim which [
          | inl (edge, side, price) ↦
              let (is, was) = (edge_cases (new_state_of s ev) old).0 edge in
              (inl (side, was, mass_of.0 is, price), positive, size, idx, quoted, calm)
          | inr (edge, side, price) ↦
              let (is, was) = (edge_cases (new_state_of s ev) old).1 edge in
              (inr (side, was, mass_of.1 is, price), positive, size, idx, quoted, calm)
        ]
    | inr (x, ea) ↦ absurd (ground arith)
  ]
  | inr (x, eb) ↦ absurd (ground arith)
]

-- A cooling symbol gives no intent, whatever the update shows.
pub make_intent_suppressed :
    (s : Strategy) (ev : Event) (old new : State) (since : Option ℕ) (r : Option Intent)
    → is_suppressed s.cooldown_updates since ≡ true
    → make_intent s ev old new since ≡ ok r
    → r ≡ none
unfolding make_intent
make_intent_suppressed s ev old new since r h e = ground arith

-- An update that fires is an edge: the symbol was not yet in the state that the masses now show,
-- it is in that state afterwards, no cooldown of the symbol is running, the update has a level on both
-- sides, whose prices the intent carries, and the intent takes the first price of the other side,
-- which is positive, with the strategy's order size.
pub on_update-Edge :
    (s s' : Strategy) (ev : Event) (i : Intent)
    → on_update s ev ≡ ok (s', some i)
    → (old : State) × (get_elem? s.state ev.symbol_idx ≡ some old)
      × (get_elem? s'.state ev.symbol_idx ≡ some (new_state_of s ev))
      × (BuysOn s ev old i ⊎ SellsOn s ev old i)
      × (0 < i.price)
      × (i.shares ≡ s.order_shares)
      × (i.symbol_idx ≡ ev.symbol_idx)
      × IsQuoted ev i.bid0 i.ask0
      × ((since : Option ℕ) × (get_elem? s.updates_since_fire ev.symbol_idx ≡ some since)
          × IsCalm s.cooldown_updates since)
on_update-Edge s s' ev i e =
    let (old, since, e1, e2, e3, is) = on_update-eq-ok s s' ev (some i) e in
    let (edge, positive, size, idx, quoted, calm) = make_intent-some s ev old since i e3 in
    let here =
      get_elem?-set_self s.state ev.symbol_idx (new_state_of s ev)
        (lt_of_get_elem? s.state ev.symbol_idx e1) in
    (old, e1, rw is here, edge, positive, size, idx, quoted, (since, e2, calm))
