-- ===== src/Traces/Replay.antt =====
-- model/compare_traces.py on the book trace of a run of model/dump_trace.py and that of the RTL.
use hft_rtl.Prelude.{ℕ, ◌≤◌, ◌≡◌, ◌↔◌, ◌∙◌, sym, Option, none, some, List, [], ◌∷◌, Text, All}
use hft_rtl.Prelude.Bytes.{Bytes}
use hft_rtl.Prelude.Int.{ℤ}
use hft_rtl.Prelude.Result.{Result, ok}
use hft_rtl.Trace.{Options, Dump, Summary, Line, dump_trace}
use hft_rtl.Trace.Tally.{dump_trace-IsReported}
use hft_rtl.Trace.Linked.{ShowsAll}
use hft_rtl.Trace.Shown.{dump_trace-ShowsAll}
use hft_rtl.Traces.Json.{Value, object}
use hft_rtl.Traces.{read_lines, matching, exit_with, main}
use hft_rtl.Traces.Updates.{line_fields, AllShow, main-AllShow}

module _ (int_of_text : Text → Option ℤ) (loads : Text → Result Value) where
  -- The texts are the lines that `dump_trace` writes, one after the other.
  abbrev pub AllPrint : List Text → List Line → Type 0
  AllPrint [] [] = Unit
  AllPrint [] (l ∷ ls) = ⊥
  AllPrint (raw ∷ raws) [] = ⊥
  AllPrint (raw ∷ raws) (l ∷ ls) = (loads raw ≡ ok (object (line_fields l none))) × AllPrint raws ls

  AllPrint-AllShow :
      (raws : List Text) (ls : List Line)
      → AllPrint raws ls
      → All ShowsAll ls
      → AllShow int_of_text loads raws ls
  AllPrint-AllShow [] [] h full = tt
  AllPrint-AllShow [] (l ∷ ls) h full = absurd h
  AllPrint-AllShow (raw ∷ raws) [] h full = absurd h
  AllPrint-AllShow (raw ∷ raws) (l ∷ ls) (p, h) (f, full) =
      ((none, p), f, AllPrint-AllShow raws ls h full)

  -- For a run of `dump_trace` that ends, if the golden file holds, between blank lines, the lines of
  -- its book trace, and the other file the printed lines of a sequence of book updates with all
  -- levels, with or without latencies, then the comparison is a match of `n` updates exactly if the
  -- other updates are those of the run, in the same order, the summary of the run counts `n` updates,
  -- and `n` is at least `min_updates`.
  pub main-dump_trace :
      (o : Options) (capture : Bytes) (d : Dump) (s : Summary) (max min_updates n : ℕ)
      (gs rs : List Text) (vs : List Line)
      → dump_trace o capture ≡ ok (d, s)
      → AllPrint (read_lines gs) d.out
      → AllShow int_of_text loads (read_lines rs) vs
      → (main int_of_text loads max min_updates (some gs) (some rs) ≡ ok (exit_with 0 (matching n)))
        ↔ ((d.out ≡ vs) × (s.updates ≡ n) × (min_updates ≤ n))
  main-dump_trace o capture d s max min_updates n gs rs vs e hg hr =
      let shown = AllPrint-AllShow (read_lines gs) d.out hg (dump_trace-ShowsAll o capture d s e) in
      let count = (dump_trace-IsReported o capture d s e).updates_written in
      let same = main-AllShow int_of_text loads max min_updates n gs rs d.out vs shown hr in
      (
        λ h. let (is, l, most) = same.0 h in (is, count ∙ l, most),
        λ (is, l, most). same.1 (is, sym count ∙ l, most),
      )
