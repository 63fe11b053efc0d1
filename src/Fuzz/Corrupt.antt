-- ===== src/Fuzz/Corrupt.antt =====
-- `_corrupt_message` of model/fuzz_stream.py. Its inner loop draws until a byte differs, which a fuel
-- bounds here: `none` stands for a loop that has not ended within it.
use hft_rtl.Prelude.{
  ℕ, zero, suc, ◌+◌, ◌-◌, Option, none, some, [], ◌∷◌, ◌++◌, ltb, leb, nat_eq, if◌then◌else◌,
  length, take, get_elem?, set,
}
use hft_rtl.Prelude.Bytes.{Bytes}
use hft_rtl.Fuzz.Draws.{Rng}

pub record Corrupted (G : Type 0) : Type 0 where
  pub bytes : Bytes
  pub changed : ℕ
  pub bogus_len : Option ℕ
  pub rng_state : G

abbrev pub byte_at : Bytes → ℕ → ℕ
byte_at bs k = elim (get_elem? bs k) [ none ↦ 0 | some b ↦ b ]

module _ {G : Type 0} (rng : Rng G) where
  -- The draws until one is not `orig`.
  unfoldable pub draw_other : ℕ → ℕ → G → Option (ℕ × G)
  draw_other zero orig g = none
  draw_other (suc fuel) orig g =
      let (new, g') = rng.randrange 0 256 g in
      let again = draw_other fuel orig g' in if nat_eq new orig then again else some (new, g')

  -- The flip of one byte, the number of changes, and the generator.
  unfoldable pub flip_byte : ℕ → Bytes → G → Option (Bytes × ℕ × G)
  flip_byte fuel body g =
      let (k, g') = rng.randrange 0 (length body) g in
      elim (draw_other fuel (byte_at body k) g') [
        | none ↦ none
        | some (new, g'') ↦ some (set body k new, 1, g'')
      ]

  -- `if body and rng.random() < flip_prob`; an empty body draws nothing.
  unfoldable pub flip_some : ℕ → ℕ → Bytes → G → Option (Bytes × ℕ × G)
  flip_some fuel flip_prob [] g = some ([], 0, g)
  flip_some fuel flip_prob (b ∷ bs) g =
      let (coin, g') = rng.random g in
      if ltb coin flip_prob then flip_byte fuel (b ∷ bs) g' else some (b ∷ bs, 0, g')

  unfoldable pub random_bytes : ℕ → G → Bytes × G
  random_bytes zero g = ([], g)
  random_bytes (suc n) g =
      let (b, g') = rng.randrange 0 256 g in let (bs, g'') = random_bytes n g' in (b ∷ bs, g'')

  -- Cut or padded to the length.
  unfoldable pub resize : ℕ → Bytes → G → Bytes × G
  resize bogus_len body g =
      if leb bogus_len (length body)
      then (take bogus_len body, g)
      else let (more, g') = random_bytes (bogus_len - length body) g in (body ++ more, g')

  unfoldable pub lie_about_length : ℕ → ℕ → Bytes → ℕ → G → Corrupted G
  lie_about_length bogus_len_prob max_bogus_len body changed g =
      let (coin, g1) = rng.random g in
      let (bogus_len, g2) = rng.randrange 0 (max_bogus_len + 1) g1 in
      let resized = resize bogus_len body g2 in
      if ltb coin bogus_len_prob
      then record {
        bytes = resized.0;
        changed = changed + 1;
        bogus_len = some bogus_len;
        rng_state = resized.1;
      }
      else record { bytes = body; changed = changed; bogus_len = none; rng_state = g1 }

  -- `_corrupt_message`
  unfoldable pub corrupt_message : ℕ → Bytes → ℕ → ℕ → ℕ → G → Option (Corrupted G)
  corrupt_message fuel msg flip_prob bogus_len_prob max_bogus_len g =
      elim (flip_some fuel flip_prob msg g) [
        | none ↦ none
        | some (body, changed, g') ↦
            some (lie_about_length bogus_len_prob max_bogus_len body changed g')
      ]
