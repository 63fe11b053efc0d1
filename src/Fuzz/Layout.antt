-- ===== src/Fuzz/Layout.antt =====
-- What `build_fuzz_stream` of model/fuzz_stream.py returns.
use Prim.Native.Nat.{max}
use hft_rtl.Prelude.{
  ℕ, ◌+◌, ◌*◌, ◌/◌, ◌^◌, ◌≤◌, ◌<◌, ◌≡◌, inl, inr, ◌⊎◌, refl, ◌∙◌, Option, none, some, List, [], ◌∷◌,
  ◌++◌, arith, ltb, min, Text, length, take, drop, All, Bool-cases, drop-append_exact,
}
use hft_rtl.Prelude.Bytes.{Bytes, IsByte, join, is_ascii}
use hft_rtl.Prelude.Result.{Returns, Returns-bind}
use hft_rtl.Mold.{init, write_all, MoldWriter}
use hft_rtl.Mold.Wrap.{write_all-wrap}
use hft_rtl.Mold.Reader.{read_stream, number_from, Fits}
use hft_rtl.Mold.Stream.{wrap-read_stream}
use hft_rtl.Fuzz.Packets.{pack_packets}
use hft_rtl.Fuzz.Kept.{ReadsAs, pack_packets-ReadsAs}
use hft_rtl.Fuzz.Draws.{Rng, InRange, below_10, below_15}
use hft_rtl.Fuzz.Built.{IsBuilt, IsAscii}
use hft_rtl.Fuzz.Generate.{generate_messages}
use hft_rtl.Fuzz.Generated.{generate_messages-IsBuilt}
use hft_rtl.Fuzz.Corrupt.{Corrupted, corrupt_message}
use hft_rtl.Fuzz.Corrupted.{Yields, Yields-eq, Varies, differing, Lies, corrupt_message-IsCorrupted}
use hft_rtl.Fuzz.Build.{
  max_bogus_len, dirty_session, tail_session, default_symbols, or_default, FuzzStream, Damage,
  corrupt_all, keep_packets, fuzz_stream, finish, build_fuzz_stream,
}

-- One byte at most is another one, or the length is a bogus one.
abbrev pub IsDamaged : Bytes → Bytes → Type 0
IsDamaged m c =
    All IsByte c × (((length c ≡ length m) × (differing m c ≤ 1)) ⊎ (length c ≤ max_bogus_len))

-- The corrupted messages are damaged forms of the messages, in their order.
abbrev pub AllDamaged : List Bytes → List Bytes → Type 0
AllDamaged [] [] = Unit
AllDamaged [] (c ∷ cs) = ⊥
AllDamaged (m ∷ ms) [] = ⊥
AllDamaged (m ∷ ms) (c ∷ cs) = IsDamaged m c × AllDamaged ms cs

length-AllDamaged : (ms cs : List Bytes) → AllDamaged ms cs → length cs ≡ length ms
length-AllDamaged [] [] h = refl
length-AllDamaged [] (c ∷ cs) h = absurd h
length-AllDamaged (m ∷ ms) [] h = absurd h
length-AllDamaged (m ∷ ms) (c ∷ cs) (f, h) = omega (arith, length-AllDamaged ms cs h)

Fits-IsDamaged : (m c : Bytes) → IsBuilt m → IsDamaged m c → Fits c
Fits-IsDamaged m c (q, range, made, read, (few, bytes)) (all, how) = elim how [
  | inl (same, differ) ↦ omega (arith, same, few)
  | inr short ↦ omega (arith, short)
]

Fits-AllDamaged : (ms cs : List Bytes) → All IsBuilt ms → AllDamaged ms cs → All Fits cs
Fits-AllDamaged [] [] b h = tt
Fits-AllDamaged [] (c ∷ cs) b h = absurd h
Fits-AllDamaged (m ∷ ms) [] b h = absurd h
Fits-AllDamaged (m ∷ ms) (c ∷ cs) (b, bs) (d, h) =
    (Fits-IsDamaged m c b d, Fits-AllDamaged ms cs bs h)

Fits-IsBuilt : (ms : List Bytes) → All IsBuilt ms → All Fits ms
Fits-IsBuilt [] h = tt
Fits-IsBuilt (m ∷ ms) ((q, range, made, read, (few, bytes)), h) =
    (omega (arith, few), Fits-IsBuilt ms h)

default-IsAscii : All IsAscii default_symbols
unfolding is_ascii
default-IsAscii = (refl, (refl, (refl, (refl, (refl, (refl, (refl, (refl, tt))))))))

or_default-IsAscii :
    (symbols : List Text)
    → All IsAscii symbols
    → All IsAscii (or_default symbols) × (0 < length (or_default symbols))
or_default-IsAscii [] h = (default-IsAscii, omega arith)
or_default-IsAscii (s ∷ ss) h = (h, omega arith)

-- A file that a reader reads to the end of the session.
abbrev pub IsTail : List Bytes → Bytes → Type 0
IsTail msgs bytes =
    (fuel : ℕ) × (read_stream fuel bytes ≡ (number_from 1 msgs, some (1 + length msgs)))

write_all-IsTail :
    (msgs : List Bytes) (n : ℕ)
    → 0 < n
    → n < 65535
    → 1 + length msgs < 256 ^ 8
    → All Fits msgs
    → Returns (λ (w : MoldWriter). IsTail msgs w.f) (write_all (init [] tail_session n 1) msgs)
write_all-IsTail msgs n some_ hn small fit =
    let (packets, e, read) = wrap-read_stream msgs tail_session n 1 some_ hn fit small in
    rw (write_all-wrap [] tail_session n 1 msgs, e) (length packets, read)

module _ {G : Type 0} (rng : Rng G) (law : InRange rng) where
  -- One packet at least is kept, if there is one, and one is cut off of two or more.
  abbrev pub IsCut : ℕ → ℕ → Type 0
  IsCut keep total = (min 1 total ≤ keep) × ((keep < total) ⊎ ((total ≤ 1) × (keep ≡ total)))

  keep_packets-IsCut : (total : ℕ) (g : G) → IsCut (keep_packets rng total g).0 total
  unfolding keep_packets
  keep_packets-IsCut total g = elim (Bool-cases (ltb 1 total)) [
    | inl e ↦
        let range : max 1 (total / 2) < total = ground arith in
        let from = law.randrange_from (max 1 (total / 2)) total g range in
        let to = law.randrange_below (max 1 (total / 2)) total g range in
        rw e (omega (arith, from), inl to)
    | inr e ↦ rw e (omega arith, inr (ground arith, refl))
  ]

  IsDamaged-of_Lies :
      (m : Bytes) (c : Corrupted G) (len : Option ℕ)
      → All IsByte c.bytes
      → Lies rng law m max_bogus_len c len
      → IsDamaged m c.bytes
  IsDamaged-of_Lies m c none all (same, differ, few) = (all, inl (same, omega (arith, differ)))
  IsDamaged-of_Lies m c (some len) all (count, short, less) = (all, inr (omega (arith, count)))

  corrupt_all-AllDamaged :
      (fuel : ℕ) (ms : List Bytes) (g : G)
      → Varies rng fuel
      → All IsBuilt ms
      → Yields (λ (d : Damage G). AllDamaged ms d.corrupted_messages) (corrupt_all rng fuel ms g)
  unfolding corrupt_all
  corrupt_all-AllDamaged fuel [] g varies h = tt
  corrupt_all-AllDamaged fuel (m ∷ ms) g varies ((q, range, made, read, (few, bytes)), h) =
      let (c, e, (all, changed, lies)) =
        Yields-eq _ (corrupt_message rng fuel m below_15 below_10 max_bogus_len g) (
          corrupt_message-IsCorrupted rng law fuel below_15 below_10 max_bogus_len m g varies
            bytes) in
      let (d, e', damaged) =
        Yields-eq _ (corrupt_all rng fuel ms c.rng_state)
          (corrupt_all-AllDamaged fuel ms c.rng_state varies h) in
      rw (e, corrupt_all, e') (IsDamaged-of_Lies m c c.bogus_len all lies, damaged)

  -- What the stream is promised to be.
  pub record IsFuzz (n_dirty n_tail msgs_per_packet : ℕ) (f : FuzzStream) : Type 0 where
    pub dirty_count : length f.dirty_messages ≡ n_dirty
    pub dirty_built : All IsBuilt f.dirty_messages
    pub damaged : AllDamaged f.dirty_messages f.corrupted_messages
    pub tail_count : length f.tail_messages ≡ n_tail
    pub tail_built : All IsBuilt f.tail_messages
    pub is_cut : IsCut f.n_packets_kept f.n_packets_total
    pub tail_read : IsTail f.tail_messages (drop f.tail_start f.stream)
    pub all_read :
        (fuel : ℕ) × (read_stream fuel f.stream ≡ (
          number_from 1 (take (f.n_packets_kept * msgs_per_packet) f.corrupted_messages)
              ++ number_from 1 f.tail_messages,
          some (1 + n_tail),
        ))

  module _ (fuel : ℕ) (varies : Varies rng fuel) (symbols : List Text)
      (spelled : All IsAscii symbols) (n_dirty n_tail msgs_per_packet : ℕ)
      (some_ : 0 < msgs_per_packet) (fits : msgs_per_packet < 65535)
      (few_dirty : n_dirty + 1 < 256 ^ 8) (few_tail : n_tail + 1 < 256 ^ 8) where
    fuzz_stream-IsFuzz :
        (dirty : List Bytes) (d : Damage G)
        → length dirty ≡ n_dirty
        → All IsBuilt dirty
        → AllDamaged dirty d.corrupted_messages
        → (clean packets : List Bytes) → ReadsAs msgs_per_packet 1 d.corrupted_messages packets
        → (keep : ℕ) → IsCut keep (length packets)
        → (tail : List Bytes) → length tail ≡ n_tail
        → All IsBuilt tail
        → (file : Bytes) → IsTail tail file
        → IsFuzz n_dirty n_tail msgs_per_packet
            (fuzz_stream rng dirty d clean packets keep tail file)
    fuzz_stream-IsFuzz dirty d count built damaged clean packets reads keep cut tail tail_count
          tail_built file (tail_fuel, read) =
        let start = join (take keep packets) in
        let at_end : drop (length start) (start ++ file) ≡ file =
          drop-append_exact (length start) start file refl in
        let within : keep ≤ length packets = elim cut.1 [
          | inl less ↦ omega (arith, less)
          | inr (few, all) ↦ omega (arith, all)
        ] in
        record {
          dirty_count = count;
          dirty_built = built;
          damaged = damaged;
          tail_count = tail_count;
          tail_built = tail_built;
          is_cut = cut;
          tail_read = rw at_end (tail_fuel, read);
          all_read =
              (keep + tail_fuel, reads keep tail_fuel file within ∙ rw (read, tail_count) refl);
        }

    finish-IsFuzz :
        (dirty : List Bytes) (d : Damage G)
        → length dirty ≡ n_dirty
        → All IsBuilt dirty
        → AllDamaged dirty d.corrupted_messages
        → Returns
            (Yields (IsFuzz n_dirty n_tail msgs_per_packet))
            (finish rng (or_default symbols) n_tail msgs_per_packet dirty d)
    unfolding finish
    finish-IsFuzz dirty d count built damaged =
        let (good, some_symbols) = or_default-IsAscii symbols spelled in
        let n = msgs_per_packet in
        let cs = d.corrupted_messages in
        let same = length-AllDamaged dirty cs damaged in
        Returns-bind (λ (r : List Bytes × ℕ). ReadsAs n 1 cs r.0) _
          (pack_packets cs dirty_session n 1) _
          (pack_packets-ReadsAs cs dirty_session n 1 some_ fits (omega (arith, same))
            (Fits-AllDamaged dirty cs built damaged))
          (λ packed reads.
            Returns-bind (λ (r : List Bytes × ℕ). ReadsAs n 1 dirty r.0) _
              (pack_packets dirty dirty_session n 1) _
              (pack_packets-ReadsAs dirty dirty_session n 1 some_ fits (omega arith)
                (Fits-IsBuilt dirty built))
              (λ clean clean_reads.
                let kept = keep_packets rng (length packed.0) d.rng_state in
                let cut = keep_packets-IsCut (length packed.0) d.rng_state in
                Returns-bind (λ (r : List Bytes × G). (length r.0 ≡ n_tail) × All IsBuilt r.0) _
                  (generate_messages rng n_tail (or_default symbols) kept.1) _
                  (generate_messages-IsBuilt rng law (or_default symbols) some_symbols good n_tail
                    kept.1 few_tail)
                  (λ tail (tail_count, tail_built).
                    Returns-bind (λ (w : MoldWriter). IsTail tail.0 w.f) _
                      (write_all (init [] tail_session n 1) tail.0) _
                      (write_all-IsTail tail.0 n some_ fits (omega (arith, tail_count))
                        (Fits-IsBuilt tail.0 tail_built))
                      (λ w written.
                        fuzz_stream-IsFuzz dirty d count built damaged clean.0 packed.0 reads kept.0
                          cut tail.0 tail_count tail_built w.f written))))

    -- If the random numbers are in their ranges, one of any `fuel` random bytes in a row differs from a
    -- given byte, the symbols are ASCII, a packet takes between 1 and 65534 messages, and the numbers of
    -- messages fit the order ids, then `build_fuzz_stream` ends without an exception on every seed, and
    -- of what it returns: there are as many messages of both parts as were asked for, each made by a
    -- builder on numbers that fit and read back by `parse_message`; each corrupted message is a byte
    -- string that differs from its message in one byte at most, or that has a length of 50 or less; of
    -- two or more packets some are kept and some are cut off, and a single one is kept; a reader of the
    -- whole stream finds exactly the corrupted messages of the packets kept and then all the messages
    -- of the tail, numbered from 1 again, and the end of the session; and so does, for the tail, a
    -- reader that starts at `tail_start`.
    pub build_fuzz_stream-IsFuzz :
        (seeded : ℕ → G) (seed : ℕ)
        → Returns
            (Yields (IsFuzz n_dirty n_tail msgs_per_packet))
            (build_fuzz_stream rng seeded fuel seed symbols n_dirty n_tail msgs_per_packet)
    unfolding build_fuzz_stream
    build_fuzz_stream-IsFuzz seeded seed =
        let (good, some_symbols) = or_default-IsAscii symbols spelled in
        Returns-bind (λ (r : List Bytes × G). (length r.0 ≡ n_dirty) × All IsBuilt r.0) _
          (generate_messages rng n_dirty (or_default symbols) (seeded seed)) _
          (generate_messages-IsBuilt rng law (or_default symbols) some_symbols good n_dirty
            (seeded seed) few_dirty)
          (λ dirty (count, built).
            let (d, e, damaged) =
              Yields-eq _ (corrupt_all rng fuel dirty.0 dirty.1)
                (corrupt_all-AllDamaged fuel dirty.0 dirty.1 varies built) in
            rw e (finish-IsFuzz dirty.0 d count built damaged))
