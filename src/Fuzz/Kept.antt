-- ===== src/Fuzz/Kept.antt =====
-- The packets of `pack_packets` of model/fuzz_stream.py, cut after some of them, in a stream.
use hft_rtl.Prelude.{
  ℕ, zero, suc, ◌+◌, ◌*◌, ◌^◌, ◌≤◌, ◌<◌, ◌≡◌, refl, ap, ◌∙◌, List, [], ◌∷◌, ◌++◌, arith, length,
  take, drop, length-take, length-drop, All, All-take, All-drop, append_assoc,
}
use hft_rtl.Prelude.Bytes.{Bytes, join}
use hft_rtl.Prelude.Result.{Returns, Returns-bind}
use hft_rtl.Mold.{session_field}
use hft_rtl.Mold.Reader.{
  read_stream, number_from, number_from-append, Fits, hdr_of, body_of, pack_packet_lem,
  read_stream-packet,
}
use hft_rtl.Fuzz.Packets.{pack_batches, pack_packets}
use hft_rtl.Fuzz.PacketsWrap.{pack_batch-pack_packet}

take-sum {ℓ} :
    {A : Type ℓ} (a b : ℕ) (xs : List A) → take (a + b) xs ≡ take a xs ++ take b (drop a xs)
take-sum zero b xs = let none_more : 0 + b ≡ b = omega arith in rw none_more refl
take-sum (suc a) zero [] = let still : suc a + 0 ≡ suc a = omega arith in rw still refl
take-sum (suc a) (suc b) [] =
    let more : suc a + suc b ≡ suc (a + suc b) = omega arith in rw more refl
take-sum (suc a) b (x ∷ xs) =
    let more : suc a + b ≡ suc (a + b) = omega arith in rw more (ap (◌∷◌ x) (take-sum a b xs))

-- Whatever follows, the first `keep` packets are read as the messages in them.
abbrev pub ReadsAs : ℕ → ℕ → List Bytes → List Bytes → Type 0
ReadsAs n seq msgs packets =
    (keep fuel : ℕ) (rest : Bytes)
    → keep ≤ length packets
    → read_stream (keep + fuel) (join (take keep packets) ++ rest) ≡ (
      number_from seq (take (keep * n) msgs) ++ (read_stream fuel rest).0,
      (read_stream fuel rest).1,
    )

ReadsAs-zero :
    (n seq : ℕ) (msgs packets : List Bytes) (fuel : ℕ) (rest : Bytes)
    → read_stream (0 + fuel) (join (take 0 packets) ++ rest) ≡ (
      number_from seq (take (0 * n) msgs) ++ (read_stream fuel rest).0,
      (read_stream fuel rest).1,
    )
unfolding join number_from
ReadsAs-zero n seq msgs packets fuel rest =
    let same : 0 + fuel ≡ fuel = omega arith in
    let none_kept : 0 * n ≡ 0 = omega arith in rw (same, none_kept) refl

ReadsAs-cons :
    (n seq : ℕ) (session : Bytes) (msgs packets : List Bytes)
    → n < 65535
    → seq < 256 ^ 8
    → All Fits msgs
    → ReadsAs n (seq + length (take n msgs)) (drop n msgs) packets
    → ReadsAs n seq msgs
        ((hdr_of session seq (length (take n msgs)) ++ body_of (take n msgs)) ∷ packets)
unfolding join
ReadsAs-cons n seq session msgs packets hn hs fit more zero fuel rest h =
    ReadsAs-zero n seq msgs packets fuel rest
ReadsAs-cons n seq session msgs packets hn hs fit more (suc keep) fuel rest h =
    let batch = take n msgs in
    let pkt = hdr_of session seq (length batch) ++ body_of batch in
    let later = join (take keep packets) ++ rest in
    let size = length-take n msgs in
    let first =
      read_stream-packet (keep + fuel) session seq batch later hs (omega (arith, size))
        (All-take Fits n msgs fit) in
    let others = more keep fuel rest (omega arith) in
    let one_more : suc keep + fuel ≡ suc (keep + fuel) = omega arith in
    let count : suc keep * n ≡ n + keep * n = omega arith in
    let numbers = number_from-append seq batch (take (keep * n) (drop n msgs)) in
    let numbered =
      append_assoc (number_from seq batch)
        (number_from (seq + length batch) (take (keep * n) (drop n msgs)))
        (read_stream fuel rest).0 in
    let bytes = append_assoc pkt (join (take keep packets)) rest in
    rw (one_more, count, bytes, first, others, take-sum n (keep * n) msgs, numbers, numbered) refl

pack_batches-ReadsAs :
    (session : Bytes) (n fuel seq : ℕ) (msgs : List Bytes)
    → 0 < n
    → n < 65535
    → length msgs ≤ fuel
    → seq + length msgs < 256 ^ 8
    → All Fits msgs
    → Returns
        (λ (r : List Bytes × ℕ). ReadsAs n seq msgs r.0)
        (pack_batches session n fuel seq msgs)
unfolding pack_batches
pack_batches-ReadsAs session n zero seq msgs some_ hn fuelled small fit = λ keep fuel rest h.
    let none_kept : keep ≡ 0 = omega arith in rw none_kept (ReadsAs-zero n seq msgs [] fuel rest)
pack_batches-ReadsAs session n (suc fuel) seq [] some_ hn fuelled small fit = λ keep fuel' rest h.
    let none_kept : keep ≡ 0 = omega arith in rw none_kept (ReadsAs-zero n seq [] [] fuel' rest)
pack_batches-ReadsAs session n (suc fuel) seq (m ∷ ms) some_ hn fuelled small fit =
    let msgs = m ∷ ms in
    let batch = take n msgs in
    let size = length-take n msgs in
    let left = length-drop n msgs in
    let packed =
      pack_batch-pack_packet session seq batch
      ∙ pack_packet_lem session seq batch (omega arith) (omega (arith, size))
          (All-take Fits n msgs fit) in
    rw packed (
      Returns-bind (λ (r : List Bytes × ℕ). ReadsAs n (seq + length batch) (drop n msgs) r.0) _
        (pack_batches session n fuel (seq + length batch) (drop n msgs)) _
        (pack_batches-ReadsAs session n fuel (seq + length batch) (drop n msgs) some_ hn
          (omega (arith, left)) (omega (arith, left, size)) (All-drop Fits n msgs fit))
        (λ r more. ReadsAs-cons n seq session msgs r.0 hn (omega arith) fit more))

pub pack_packets-ReadsAs :
    (msgs : List Bytes) (session : Bytes) (n start : ℕ)
    → 0 < n
    → n < 65535
    → start + length msgs < 256 ^ 8
    → All Fits msgs
    → Returns (λ (r : List Bytes × ℕ). ReadsAs n start msgs r.0) (pack_packets msgs session n start)
unfolding pack_packets
pack_packets-ReadsAs msgs session zero start some_ hn small fit = absurd (omega arith)
pack_packets-ReadsAs msgs session (suc n) start some_ hn small fit =
    pack_batches-ReadsAs (session_field session) (suc n) (length msgs) start msgs some_ hn
      (omega arith) small fit
