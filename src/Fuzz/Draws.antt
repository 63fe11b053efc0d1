-- ===== src/Fuzz/Draws.antt =====
-- `random.Random` as model/fuzz_stream.py uses it, a parameter of the generators: a state, and what
-- each call returns and leaves. `random()` returns a multiple of 2 ^ -53, which stands for itself by
-- its numerator, and a probability by the number of numerators below it.
use hft_rtl.Prelude.{ℕ, ◌≤◌, ◌<◌}

pub record Rng (G : Type 0) : Type 0 where
  pub randrange : ℕ → ℕ → G → ℕ × G
  pub choice_index : ℕ → G → ℕ × G
  pub random : G → ℕ × G

-- `randrange(start, stop)` is in its range, and `choice` takes an element of the list.
pub record InRange {G : Type 0} (rng : Rng G) : Type 0 where
  pub randrange_from :
      (start stop : ℕ) (g : G) → start < stop → start ≤ (rng.randrange start stop g).0
  pub randrange_below :
      (start stop : ℕ) (g : G) → start < stop → (rng.randrange start stop g).0 < stop
  pub choice_below : (n : ℕ) (g : G) → 0 < n → (rng.choice_index n g).0 < n

-- The numbers of multiples of 2 ^ -53 below 0.05, 0.10, ..., as floats.
abbrev pub below_05 : ℕ
below_05 = 450359962737050

abbrev pub below_10 : ℕ
below_10 = 900719925474100

abbrev pub below_15 : ℕ
below_15 = 1351079888211149

abbrev pub below_30 : ℕ
below_30 = 2702159776422298

abbrev pub below_50 : ℕ
below_50 = 4503599627370496

abbrev pub below_55 : ℕ
below_55 = 4953959590107546

abbrev pub below_75 : ℕ
below_75 = 6755399441055744

abbrev pub below_85 : ℕ
below_85 = 7656119366529843
