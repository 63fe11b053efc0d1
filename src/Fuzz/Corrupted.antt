-- ===== src/Fuzz/Corrupted.antt =====
-- What `_corrupt_message` of model/fuzz_stream.py does to a message.
use hft_rtl.Prelude.{
  ℕ, zero, suc, ◌+◌, ◌-◌, ◌≤◌, ◌<◌, ◌≡◌, ◌≢◌, inl, inr, refl, sym, false, Option, none, some, [],
  ◌∷◌, ◌++◌, arith, ltb, leb, nat_eq, if◌then◌else◌, length, take, set, Bool-cases, All, All-append,
  All-take, All-set, length-set, length-take, length-append,
}
use hft_rtl.Prelude.Bytes.{Bytes, IsByte}
use hft_rtl.Fuzz.Draws.{Rng, InRange}
use hft_rtl.Fuzz.Corrupt.{
  Corrupted, byte_at, draw_other, flip_byte, flip_some, random_bytes, resize, lie_about_length,
  corrupt_message,
}

-- There is a value, with the property.
abbrev pub Yields {ℓ} : {A : Type ℓ} → (A → Type 0) → Option A → Type 0
Yields P none = ⊥
Yields P (some a) = P a

pub Yields-eq {ℓ} :
    {A : Type ℓ} (P : A → Type 0) (o : Option A) → Yields P o → (a : A) × (o ≡ some a) × P a
Yields-eq P none h = absurd h
Yields-eq P (some a) h = (a, refl, h)

-- The number of places, of those that both have, in which two byte strings differ.
abbrev pub differing : Bytes → Bytes → ℕ
differing [] ys = 0
differing (x ∷ xs) [] = 0
differing (x ∷ xs) (y ∷ ys) = (if nat_eq x y then 0 else 1) + differing xs ys

differing_self : (xs : Bytes) → differing xs xs ≡ 0
differing_self [] = refl
differing_self (x ∷ xs) = ground (arith, differing_self xs)

differing-set :
    (xs : Bytes) (k new : ℕ) → k < length xs → new ≢ byte_at xs k → differing xs (set xs k new) ≡ 1
differing-set [] k new h other = absurd (omega arith)
differing-set (x ∷ xs) zero new h other = ground (arith, differing_self xs)
differing-set (x ∷ xs) (suc k) new h other =
    ground (arith, differing-set xs k new (omega arith) other)

differing-append :
    (xs ys zs : Bytes) → length xs ≡ length ys → differing xs (ys ++ zs) ≡ differing xs ys
differing-append [] ys zs h = refl
differing-append (x ∷ xs) [] zs h = absurd (omega arith)
differing-append (x ∷ xs) (y ∷ ys) zs h = ground (arith, differing-append xs ys zs (omega arith))

differing-take : (n : ℕ) (xs ys : Bytes) → differing xs (take n ys) ≤ differing xs ys
differing-take zero [] ys = omega arith
differing-take zero (x ∷ xs) ys = omega arith
differing-take (suc n) [] ys = omega arith
differing-take (suc n) (x ∷ xs) [] = omega arith
differing-take (suc n) (x ∷ xs) (y ∷ ys) = omega (arith, differing-take n xs ys)

module _ {G : Type 0} (rng : Rng G) where
  -- The generator after `n` bytes are drawn.
  abbrev pub after_draws : ℕ → G → G
  after_draws zero g = g
  after_draws (suc n) g = after_draws n (rng.randrange 0 256 g).1

  -- Of any `fuel` bytes drawn in a row, one differs from a given byte.
  abbrev pub Varies : ℕ → Type 0
  Varies fuel =
      (orig : ℕ) (g : G) → (k : ℕ) × (k < fuel) × ((rng.randrange 0 256 (after_draws k g)).0 ≢ orig)

  module _ (law : InRange rng) where
    draw_other-ends :
        (fuel orig k : ℕ) (g : G)
        → k < fuel
        → (rng.randrange 0 256 (after_draws k g)).0 ≢ orig
        → Yields (λ (r : ℕ × G). (r.0 ≢ orig) × (r.0 < 256)) (draw_other rng fuel orig g)
    unfolding draw_other
    draw_other-ends zero orig k g less other = absurd (omega arith)
    draw_other-ends (suc fuel) orig zero g less other =
        let differs : nat_eq (rng.randrange 0 256 g).0 orig ≡ false = ground arith in
        rw differs (other, law.randrange_below 0 256 g (omega arith))
    draw_other-ends (suc fuel) orig (suc k) g less other =
        elim (Bool-cases (nat_eq (rng.randrange 0 256 g).0 orig)) [
          | inl e ↦ rw e (draw_other-ends fuel orig k (rng.randrange 0 256 g).1 (omega arith) other)
          | inr e ↦ rw e ((λ h. ground arith), law.randrange_below 0 256 g (omega arith))
        ]

    -- At most one byte is another one, which counts as a change.
    abbrev IsFlipped : Bytes → Bytes × ℕ × G → Type 0
    IsFlipped msg r =
        (length r.0 ≡ length msg) × All IsByte r.0 × (differing msg r.0 ≡ r.1) × (r.1 ≤ 1)

    module _ (fuel : ℕ) (varies : Varies fuel) where
      flip_byte-IsFlipped :
          (body : Bytes) (g : G)
          → 0 < length body
          → All IsByte body
          → Yields (IsFlipped body) (flip_byte rng fuel body g)
      unfolding flip_byte
      flip_byte-IsFlipped body g some_ bytes =
          let (k, g') = rng.randrange 0 (length body) g in
          let inside = law.randrange_below 0 (length body) g some_ in
          let (n, less, other) = varies (byte_at body k) g' in
          let (r, e, (differs, byte)) =
            Yields-eq _ (draw_other rng fuel (byte_at body k) g')
              (draw_other-ends fuel (byte_at body k) n g' less other) in
          rw (e, flip_byte)
            (
              length-set body k r.0,
              All-set IsByte body k r.0 bytes byte,
              differing-set body k r.0 inside differs,
              omega arith,
            )

      flip_some-IsFlipped :
          (flip_prob : ℕ) (msg : Bytes) (g : G)
          → All IsByte msg
          → Yields (IsFlipped msg) (flip_some rng fuel flip_prob msg g)
      unfolding flip_some
      flip_some-IsFlipped flip_prob [] g bytes = (refl, tt, refl, omega arith)
      flip_some-IsFlipped flip_prob (b ∷ bs) g bytes =
          elim (Bool-cases (ltb (rng.random g).0 flip_prob)) [
            | inl e ↦ rw e (flip_byte-IsFlipped (b ∷ bs) (rng.random g).1 (omega arith) bytes)
            | inr e ↦ rw e (refl, bytes, differing_self (b ∷ bs), omega arith)
          ]

    random_bytes-IsByte :
        (n : ℕ) (g : G)
        → (length (random_bytes rng n g).0 ≡ n) × All IsByte (random_bytes rng n g).0
    unfolding random_bytes
    random_bytes-IsByte zero g = (refl, tt)
    random_bytes-IsByte (suc n) g =
        let (count, bytes) = random_bytes-IsByte n (rng.randrange 0 256 g).1 in
        (omega (arith, count), (law.randrange_below 0 256 g (omega arith), bytes))

    resize-lem :
        (len : ℕ) (msg body : Bytes) (g : G)
        → length body ≡ length msg
        → All IsByte body
        → (length (resize rng len body g).0 ≡ len)
          × All IsByte (resize rng len body g).0
          × (differing msg (resize rng len body g).0 ≤ differing msg body)
    unfolding resize
    resize-lem len msg body g same bytes = elim (Bool-cases (leb len (length body))) [
      | inl e ↦
          let cut = length-take len body in
          rw e (ground (arith, cut), All-take IsByte len body bytes, differing-take len msg body)
      | inr e ↦
          let (count, more) = random_bytes-IsByte (len - length body) g in
          let added = random_bytes rng (len - length body) g in
          let still = differing-append msg body added.0 (sym same) in
          rw e (
            ground (arith, length-append body added.0, count),
            All-append IsByte body added.0 bytes more,
            omega (arith, still),
          )
    ]

    abbrev pub Lies : Bytes → ℕ → Corrupted G → Option ℕ → Type 0
    Lies msg max c none =
        (length c.bytes ≡ length msg) × (differing msg c.bytes ≡ c.changed) × (c.changed ≤ 1)
    Lies msg max c (some len) =
        (length c.bytes ≡ len) × (len ≤ max) × (differing msg c.bytes < c.changed)

    -- Without a bogus length the message keeps its length and differs in as many bytes as are counted
    -- as changes; with one it has that length, and it differs in fewer places than are counted.
    abbrev pub IsCorrupted : Bytes → ℕ → Corrupted G → Type 0
    IsCorrupted msg max c = All IsByte c.bytes × (c.changed ≤ 2) × Lies msg max c c.bogus_len

    lie_about_length-IsCorrupted :
        (prob max changed : ℕ) (msg body : Bytes) (g : G)
        → IsFlipped msg (body, changed, g)
        → IsCorrupted msg max (lie_about_length rng prob max body changed g)
    unfolding lie_about_length
    lie_about_length-IsCorrupted prob max changed msg body g (same, bytes, differ, few) =
        let (coin, g1) = rng.random g in
        let (len, g2) = rng.randrange 0 (max + 1) g1 in
        let within = law.randrange_below 0 (max + 1) g1 (omega arith) in
        let (count, all, less) = resize-lem len msg body g2 same bytes in
        elim (Bool-cases (ltb coin prob)) [
          | inl e ↦ rw e (all, omega arith, (count, omega (arith, within), omega (arith, less)))
          | inr e ↦ rw e (bytes, omega arith, (same, differ, few))
        ]

    -- If the random numbers are in their ranges and one of any `fuel` random bytes in a row differs
    -- from a given byte, then `_corrupt_message` ends on a byte string and returns a byte string. With
    -- no bogus length this has the length of the message and differs from it in exactly as many bytes,
    -- one or none, as are counted as changed; with a bogus length, at most `max_bogus_len`, it has that
    -- length and differs from the message, where they overlap, in fewer places than are counted.
    pub corrupt_message-IsCorrupted :
        (fuel flip_prob bogus_len_prob max_bogus_len : ℕ) (msg : Bytes) (g : G)
        → Varies fuel
        → All IsByte msg
        → Yields
            (IsCorrupted msg max_bogus_len)
            (corrupt_message rng fuel msg flip_prob bogus_len_prob max_bogus_len g)
    unfolding corrupt_message
    corrupt_message-IsCorrupted fuel flip_prob bogus_len_prob max_bogus_len msg g varies bytes =
        let (r, e, flipped) =
          Yields-eq _ (flip_some rng fuel flip_prob msg g)
            (flip_some-IsFlipped fuel varies flip_prob msg g bytes) in
        rw (e, corrupt_message)
          (lie_about_length-IsCorrupted bogus_len_prob max_bogus_len r.1 msg r.0 r.2 flipped)
