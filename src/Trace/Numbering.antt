-- ===== src/Trace/Numbering.antt =====
-- The tokens in the order lines of model/dump_trace.py.
use hft_rtl.Prelude.{
  ℕ, zero, suc, ◌+◌, ◌^◌, ◌≤◌, ◌≡◌, refl, sym, ap, ◌∙◌, Bool-cases, inl, inr, Option, none, some,
  List, [], ◌∷◌, ◌++◌, map, arith, Text, take, drop,
}
use hft_rtl.Prelude.Bytes.{Bytes, ascii}
use hft_rtl.Prelude.Result.{ok, >>=-eq-ok}
use hft_rtl.Market.{Event}
use hft_rtl.Strategy
use hft_rtl.Strategy.{Intent}
use hft_rtl.Risk
use hft_rtl.Ouch
use hft_rtl.Ouch.{OuchEncoder, token_of}
use hft_rtl.Ouch.Tokens.{token_slice, token_slice-encode}
use hft_rtl.Trace.{
  Options, Dump, Chain, Summary, OrderLine, order_line, send_order, on_intent, on_update, new_chain,
  dump_trace,
}
use hft_rtl.Trace.Lift.{dump_trace-Holds}

-- The tokens of the first `n` calls.
unfoldable pub tokens_upto : ℕ → List Text
tokens_upto zero = []
tokens_upto (suc n) = tokens_upto n ++ token_of n ∷ []

abbrev pub token_in : OrderLine → Text
token_in line = line.token

-- The order lines carry the tokens one after the other, as long as a token fits its field.
abbrev IsNumbered : Chain → Type 0
IsNumbered c = c.ouch.counter ≤ 256 ^ 4 → map token_in c.orders ≡ tokens_upto c.ouch.counter

ascii-eq-ok : (bs : Bytes) (t : Text) → ascii bs ≡ ok t → bs ≡ t
unfolding ascii
ascii-eq-ok bs t e = ground (arith, e)

map-append_one :
    (lines : List OrderLine) (line : OrderLine)
    → map token_in (lines ++ line ∷ []) ≡ map token_in lines ++ line.token ∷ []
map-append_one [] line = refl
map-append_one (l ∷ lines) line = ap (◌∷◌ l.token) (map-append_one lines line)

next_token :
    (lines : List OrderLine) (line : OrderLine) (k : ℕ)
    → line.token ≡ token_of k
    → map token_in lines ≡ tokens_upto k
    → map token_in (lines ++ line ∷ []) ≡ tokens_upto (k + 1)
unfolding tokens_upto
next_token lines line k is before =
    let count : k + 1 ≡ suc k = omega arith in
    rw (map-append_one lines line, before, is, count) refl

send_order-IsNumbered :
    (n : ℕ) (c c' : Chain) (i : Intent) → send_order n c i ≡ ok c' → IsNumbered c → IsNumbered c'
unfolding send_order Ouch.encode tokens_upto token_slice
send_order-IsNumbered n c c' i e t =
    let (raw, e1, e2) = >>=-eq-ok (Ouch.encode c.ouch i.symbol_idx i.side i.shares i.price).1 _ e in
    let (token, e3, e4) = >>=-eq-ok (ascii (take 14 (drop 3 raw))) _ e2 in
    let line = order_line n i token raw in
    let next : OuchEncoder = record c.ouch { counter = c.ouch.counter + 1 } in
    let is : record c { ouch = next; orders = c.orders ++ line ∷ [] } ≡ c' = cc e4 in
    let slice = ascii-eq-ok (take 14 (drop 3 raw)) token e3 in
    rw (← is) (λ small.
      let made =
        token_slice-encode c.ouch next i.symbol_idx i.side i.shares i.price raw (omega arith)
          (ap (λ r. (next, r)) e1) in
      next_token c.orders line c.ouch.counter (sym slice ∙ made) (t (omega arith)))

on_intent-IsNumbered :
    (n : ℕ) (c c' : Chain) (fired : Option Intent)
    → on_intent n c fired ≡ ok c'
    → IsNumbered c
    → IsNumbered c'
unfolding on_intent
on_intent-IsNumbered n c c' none e t = let is : c ≡ c' = cc in rw (← is) t
on_intent-IsNumbered n c c' (some i) e t =
    let ((r', accepted), e1, e2) = >>=-eq-ok (Risk.on_intent c.risk i) _ e in
    elim (Bool-cases accepted) [
      | inl passed ↦ send_order-IsNumbered n (record c { risk = r' }) c' i (rw passed at e2) t
      | inr rejected ↦
          let kept : ok (record c { risk = r' }) ≡ ok c' = rw rejected at e2 in
          let is : record c { risk = r' } ≡ c' = cc in rw (← is) t
    ]

on_update-IsNumbered :
    (n : ℕ) (ev : Event) (c c' : Chain) → on_update n ev c ≡ ok c' → IsNumbered c → IsNumbered c'
unfolding on_update
on_update-IsNumbered n ev c c' e t =
    let ((s', fired), e1, e2) = >>=-eq-ok (Strategy.on_update c.strategy ev) _ e in
    on_intent-IsNumbered n (record c { strategy = s'; risk = Risk.on_update c.risk }) c' fired e2 t

-- If a run with `--orders-out` ends without an exception and has encoded at most 2^32 orders, the
-- lines of the order trace carry the tokens of the calls one after the other, from the first on.
pub dump_trace-numbers :
    (o : Options) (capture : Bytes) (d : Dump) (s : Summary) (c : Chain)
    → dump_trace o capture ≡ ok (d, s)
    → d.chain ≡ some c
    → Ouch.order_count c.ouch ≤ 256 ^ 4
    → map token_in c.orders ≡ tokens_upto (Ouch.order_count c.ouch)
unfolding tokens_upto
dump_trace-numbers o capture d s c e is small =
    let start : IsNumbered (new_chain o) = λ h. refl in
    let holds = dump_trace-Holds IsNumbered on_update-IsNumbered o capture d s e start in
    let at : IsNumbered c = rw is at holds in at small
