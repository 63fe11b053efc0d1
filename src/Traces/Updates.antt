-- ===== src/Traces/Updates.antt =====
-- What model/compare_traces.py makes of the lines that model/dump_trace.py and the RTL replay write.
use hft_rtl.Prelude.{
  ℕ, ◌≤◌, ◌≡◌, ◌↔◌, refl, ◌∙◌, true, Option, none, some, List, [], ◌∷◌, arith, Text, text_eq,
  length,
}
use hft_rtl.Prelude.Result.{Result, ok}
use hft_rtl.Prelude.Int.{ℤ, pos}
use hft_rtl.Book.{Level}
use hft_rtl.Trace.{Line}
use hft_rtl.Traces.Json.{
  Value, integer, array, object, Items, nil, item, Fields, end, field, pair, count_items,
  count_fields, find_field, value_eq, fields_eq, levels_of, level_of, int_of,
}
use hft_rtl.Traces.{
  n_levels, key_n, key_symbol_idx, key_bid, key_ask, key_lat, fine, normal_side, normal_value,
  normal_fields, normalize, check_line, read_lines, matching, exit_with, main,
}
use hft_rtl.Traces.Match.{Matches, main-Matches}

-- `[[p, s] for p, s in ...]`
unfoldable pub level_values : List Level → Items
level_values [] = nil
level_values (l ∷ ls) = item (pair (pos l.price) (pos l.shares)) (level_values ls)

abbrev lat_field : Option Value → Fields
lat_field none = end
lat_field (some lat) = field key_lat lat end

-- The object of a line; the line of the RTL ends with its latency.
unfoldable pub line_fields : Line → Option Value → Fields
line_fields l lat = field key_n (integer (pos l.n)) (
    field key_symbol_idx (integer (pos l.symbol_idx)) (
      field key_bid (array (level_values l.bid))
        (field key_ask (array (level_values l.ask)) (lat_field lat))))

count_items-level_values : (ls : List Level) → count_items (level_values ls) ≡ length ls
unfolding count_items level_values
count_items-level_values [] = refl
count_items-level_values (l ∷ ls) = omega (arith, count_items-level_values ls)

pair_eq_iff :
    (k l : Level)
    → (value_eq (pair (pos k.price) (pos k.shares)) (pair (pos l.price) (pos l.shares)) ≡ true)
      ↔ (k ≡ l)
unfolding value_eq
pair_eq_iff k l = ground arith

level_values_iff :
    (ks ls : List Level)
    → (value_eq (array (level_values ks)) (array (level_values ls)) ≡ true) ↔ (ks ≡ ls)
unfolding value_eq level_values
level_values_iff [] [] = (λ h. refl, λ h. refl)
level_values_iff [] (l ∷ ls) = (λ h. cc, λ h. cc)
level_values_iff (k ∷ ks) [] = (λ h. cc, λ h. cc)
level_values_iff (k ∷ ks) (l ∷ ls) = ground (arith, level_values_iff ks ls)

line_fields_iff :
    (k l : Line) → (fields_eq (line_fields k none) (line_fields l none) ≡ true) ↔ (k ≡ l)
unfolding fields_eq value_eq line_fields find_field count_fields text_eq
line_fields_iff k l = ground (arith, level_values_iff k.bid l.bid, level_values_iff k.ask l.ask)

module _ (int_of_text : Text → Option ℤ) where
  levels_of-level_values :
      (ls : List Level) → levels_of int_of_text (level_values ls) ≡ ok (level_values ls)
  unfolding levels_of level_of int_of level_values
  levels_of-level_values [] = refl
  levels_of-level_values (l ∷ ls) = rw (levels_of-level_values ls) refl

  normal_side-level_values :
      (key : Text) (ls : List Level)
      → length ls ≡ n_levels
      → normal_side int_of_text key (array (level_values ls)) ≡ fine (array (level_values ls))
  unfolding normal_side
  normal_side-level_values key ls h =
      let eight : count_items (level_values ls) ≡ n_levels = count_items-level_values ls ∙ h in
      rw (eight, levels_of-level_values ls) refl

  -- Every level is shown.
  abbrev pub IsFull : Line → Type 0
  IsFull l = (length l.bid ≡ n_levels) × (length l.ask ≡ n_levels)

  normalize-line_fields :
      (l : Line) (lat : Option Value)
      → IsFull l
      → normalize int_of_text (object (line_fields l lat)) ≡ fine (line_fields l none)
  unfolding normalize normal_fields normal_value line_fields find_field text_eq
  normalize-line_fields l none (b, a) =
      rw (normal_side-level_values key_bid l.bid b, normal_side-level_values key_ask l.ask a) refl
  normalize-line_fields l (some lat) (b, a) =
      rw (normal_side-level_values key_bid l.bid b, normal_side-level_values key_ask l.ask a) refl

  module _ (loads : Text → Result Value) where
    -- The text is the line, printed with or without a latency.
    abbrev pub Shows : Text → Line → Type 0
    Shows raw l = (lat : Option Value) × (loads raw ≡ ok (object (line_fields l lat)))

    abbrev pub AllShow : List Text → List Line → Type 0
    AllShow [] [] = Unit
    AllShow [] (l ∷ ls) = ⊥
    AllShow (raw ∷ raws) [] = ⊥
    AllShow (raw ∷ raws) (l ∷ ls) = Shows raw l × IsFull l × AllShow raws ls

    check_line-Shows :
        (raw : Text) (l : Line)
        → Shows raw l
        → IsFull l
        → check_line int_of_text loads raw ≡ fine (line_fields l none)
    unfolding check_line
    check_line-Shows raw l (lat, is) full =
        rw (is, check_line, normalize-line_fields l lat full) refl

    length-AllShow : (raws : List Text) (ls : List Line) → AllShow raws ls → length raws ≡ length ls
    length-AllShow [] [] h = refl
    length-AllShow [] (l ∷ ls) h = absurd h
    length-AllShow (raw ∷ raws) [] h = absurd h
    length-AllShow (raw ∷ raws) (l ∷ ls) (s, f, h) = omega (arith, length-AllShow raws ls h)

    Matches-AllShow :
        (gs rs : List Text) (us vs : List Line)
        → AllShow gs us
        → AllShow rs vs
        → Matches int_of_text loads gs rs ↔ (us ≡ vs)
    Matches-AllShow [] [] [] [] hg hr = (λ h. refl, λ h. tt)
    Matches-AllShow [] [] (u ∷ us) vs hg hr = absurd hg
    Matches-AllShow [] [] [] (v ∷ vs) hg hr = absurd hr
    Matches-AllShow [] (r ∷ rs) (u ∷ us) vs hg hr = absurd hg
    Matches-AllShow [] (r ∷ rs) [] [] hg hr = absurd hr
    Matches-AllShow [] (r ∷ rs) [] (v ∷ vs) hg hr = (λ h. absurd h, λ h. cc)
    Matches-AllShow (g ∷ gs) rs [] vs hg hr = absurd hg
    Matches-AllShow (g ∷ gs) [] (u ∷ us) (v ∷ vs) hg hr = absurd hr
    Matches-AllShow (g ∷ gs) [] (u ∷ us) [] hg hr = (λ h. absurd h, λ h. cc)
    Matches-AllShow (g ∷ gs) (r ∷ rs) (u ∷ us) [] hg hr = absurd hr
    Matches-AllShow (g ∷ gs) (r ∷ rs) (u ∷ us) (v ∷ vs) (sg, fg, hg) (sr, fr, hr) =
        let eg = check_line-Shows g u sg fg in
        let er = check_line-Shows r v sr fr in
        let rest = Matches-AllShow gs rs us vs hg hr in
        (
          λ ((a, b, eg', er', same), h).
              let left : a ≡ line_fields u none = cc in
              let right : b ≡ line_fields v none = cc in
              let is : u ≡ v = (line_fields_iff u v).0 (rw (← left, ← right) same) in
              let are : us ≡ vs = rest.0 h in cc,
          λ e.
              let is : u ≡ v = cc in
              let are : us ≡ vs = cc in
              (
                (line_fields u none, line_fields v none, eg, er, (line_fields_iff u v).1 is),
                rest.1 are,
              ),
        )

    -- If the files hold, between blank lines, the printed lines of two sequences of book updates with
    -- all levels, with or without latencies, then the comparison is a match of `n` updates exactly if
    -- the two sequences are the same, in the same order, and of length `n`, and `n` is at least
    -- `min_updates`.
    pub main-AllShow :
        (max min_updates n : ℕ) (gs rs : List Text) (us vs : List Line)
        → AllShow (read_lines gs) us
        → AllShow (read_lines rs) vs
        → (main int_of_text loads max min_updates (some gs) (some rs)
            ≡ ok (exit_with 0 (matching n)))
          ↔ ((us ≡ vs) × (length us ≡ n) × (min_updates ≤ n))
    main-AllShow max min_updates n gs rs us vs hg hr =
        let whole = (main-Matches int_of_text loads max min_updates gs rs n).0 in
        let same = Matches-AllShow (read_lines gs) (read_lines rs) us vs hg hr in
        let count = length-AllShow (read_lines gs) us hg in
        (
          λ h. let (m, l, e) = whole.0 h in (same.0 m, omega (arith, count, l), e),
          λ (is, l, e). whole.1 (same.1 is, omega (arith, count, l), e),
        )
