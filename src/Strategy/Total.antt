-- ===== src/Strategy/Total.antt =====
-- `Strategy.on_update` of model/strategy.py raises nothing on the events of a market model.
use hft_rtl.Prelude.{
  ℕ, ◌<◌, ◌≡◌, refl, ◌∙◌, inl, inr, Bool, true, ◌&&◌, ◌||◌, not, Option, none, some, List, [], ◌∷◌,
  arith, nat_eq, length, length-set, get_elem?-some, All, Bool-cases,
}
use hft_rtl.Prelude.Bytes.{is_ascii}
use hft_rtl.Prelude.Result.{Returns, Returns-bind}
use hft_rtl.Book.{Level}
use hft_rtl.Book.Prices.{IsCheap}
use hft_rtl.Market.{Event}
use hft_rtl.Market.Bounds.{IsBoundedEvent}
use hft_rtl.Strategy.{
  State, Strategy, Intent, first_level, new_state_of, is_long, is_short, is_suppressed,
  price_intent, make_intent, on_update,
}

-- Both lists have an entry for each of `N` symbols.
pub record IsSized (N shares : ℕ) (s : Strategy) : Type 0 where
  pub states : length s.state ≡ N
  pub counts : length s.updates_since_fire ≡ N
  pub sends : s.order_shares ≡ shares

-- What an intent can be.
pub record IsOrder (B N shares : ℕ) (i : Intent) : Type 0 where
  pub known : i.symbol_idx < N
  pub cheap : i.price < B
  pub side_count : length i.side ≡ 1
  pub side_is_ascii : is_ascii i.side ≡ true
  pub sends : i.shares ≡ shares

abbrev pub IfIntent : (B N shares : ℕ) → Option Intent → Type 0
IfIntent B N shares none = Unit
IfIntent B N shares (some i) = IsOrder B N shares i

module _ (B N shares : ℕ) where
  price_intent-IfIntent :
      (s : Strategy) (idx : ℕ) (buy sell : Bool) (bid0 ask0 : ℕ)
      → s.order_shares ≡ shares
      → idx < N
      → bid0 < B
      → ask0 < B
      → IfIntent B N shares (price_intent s idx buy sell bid0 ask0)
  unfolding price_intent is_ascii
  price_intent-IfIntent s idx buy sell bid0 ask0 sends known b a =
      elim (Bool-cases (buy && not (nat_eq ask0 0))) [
        | inl e ↦ rw e (record {
          known = known;
          cheap = a;
          side_count = refl;
          side_is_ascii = refl;
          sends = sends;
        })
        | inr e ↦ elim (Bool-cases (sell && not (nat_eq bid0 0))) [
          | inl e' ↦
              rw (e, e')
                (record {
                  known = known;
                  cheap = b;
                  side_count = refl;
                  side_is_ascii = refl;
                  sends = sends;
                })
          | inr e' ↦ rw (e, e') tt
        ]
      ]

  -- There is a first level, and its price is below `B`.
  first_level-Returns :
      (ls : List Level) → 0 < length ls → All (IsCheap B) ls → Returns (IsCheap B) (first_level ls)
  first_level-Returns [] h all = absurd (omega arith)
  first_level-Returns (l ∷ ls) h (c, all) = c

  make_intent-Returns :
      (s : Strategy) (ev : Event) (old new : State) (since : Option ℕ)
      → s.order_shares ≡ shares
      → IsBoundedEvent B N ev
      → 0 < length ev.bid
      → 0 < length ev.ask
      → Returns (IfIntent B N shares) (make_intent s ev old new since)
  unfolding make_intent
  make_intent-Returns s ev old new since sends h b a =
      let buy = is_long new && not (is_long old) in
      let sell = is_short new && not (is_short old) in
      elim (Bool-cases ((buy || sell) && not (is_suppressed s.cooldown_updates since))) [
        | inl e ↦ rw e (
            Returns-bind (IsCheap B) (IfIntent B N shares) (first_level ev.bid) _
              (first_level-Returns ev.bid b h.bids)
              (λ bid0 cb.
                Returns-bind (IsCheap B) (IfIntent B N shares) (first_level ev.ask) _
                  (first_level-Returns ev.ask a h.asks)
                  (λ ask0 ca.
                    price_intent-IfIntent s ev.symbol_idx buy sell bid0.price ask0.price sends
                      h.index cb ca)))
        | inr e ↦ rw e tt
      ]

  abbrev Updated : Strategy × Option Intent → Type 0
  Updated r = IsSized N shares r.0 × IfIntent B N shares r.1

  pub on_update-Returns :
      (s : Strategy) (ev : Event)
      → IsSized N shares s
      → IsBoundedEvent B N ev
      → 0 < length ev.bid
      → 0 < length ev.ask
      → Returns Updated (on_update s ev)
  unfolding on_update
  on_update-Returns s ev z h b a =
      let (old, e) = get_elem?-some s.state ev.symbol_idx (omega (arith, h.index, z.states)) in
      let (since, e') =
        get_elem?-some s.updates_since_fire ev.symbol_idx (omega (arith, h.index, z.counts)) in
      rw (e, e')
        (Returns-bind (IfIntent B N shares) Updated (make_intent s ev old (new_state_of s ev) since)
          _ (make_intent-Returns s ev old (new_state_of s ev) since z.sends h b a)
          (λ intent good. (
            record {
              states = length-set s.state ev.symbol_idx (new_state_of s ev) ∙ z.states;
              counts = length-set s.updates_since_fire ev.symbol_idx _ ∙ z.counts;
              sends = z.sends;
            },
            good,
          )))
