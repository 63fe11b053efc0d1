-- ===== src/BinaryFile/Records.antt =====
-- What model/binaryfile.py reads from a sequence of records, whole or cut short.
use hft_rtl.Prelude.{
  ℕ, zero, suc, ◌+◌, ◌*◌, ◌-◌, ◌/◌, ◌%◌, ◌^◌, ◌<◌, ◌≤◌, ◌≡◌, refl, sym, ap, ◌∙◌, List, [], ◌∷◌,
  ◌++◌, ltb, length, length-append, none, some, arith, ◌⊎◌, inl, inr, Bool-cases, take, drop,
  take-append_exact, drop-append_exact, All, append_assoc, length-take, length-drop,
  take-append-drop, All-drop,
}
use hft_rtl.Prelude.Bytes.{Bytes, IsByte, be, length-be, of_be, of_be-be}
use hft_rtl.BinaryFile.{read_from, read_messages}

-- One record, and a file of records.
abbrev pub record_of : Bytes → Bytes
record_of msg = be 2 (length msg) ++ msg

unfoldable pub records : List Bytes → Bytes
records [] = []
records (msg ∷ msgs) = record_of msg ++ records msgs

abbrev pub Fits : Bytes → Type 0
Fits msg = length msg < 256 ^ 2

-- What a record that is cut short leaves at the end of a file.
abbrev pub IsCut : Bytes → Type 0
IsCut tail = (length tail < 2) ⊎ (length tail < of_be (take 2 tail) + 2)

read_from-IsCut : (fuel count : ℕ) (tail : Bytes) → IsCut tail → read_from fuel none count tail ≡ []
unfolding read_from
read_from-IsCut zero count tail h = refl
read_from-IsCut (suc fuel) count tail h =
    let len = length-take 2 tail in
    let left = length-drop 2 tail in
    let size = length-take (of_be (take 2 tail)) (drop 2 tail) in
    elim h [ inl short ↦ ground arith | inr cut ↦ ground arith ]

read_from-record_of :
    (fuel count : ℕ) (msg rest : Bytes)
    → Fits msg
    → read_from (suc fuel) none count (record_of msg ++ rest)
      ≡ msg ∷ read_from fuel none (count + 1) rest
unfolding read_from
read_from-record_of fuel count msg rest h =
    rw
      (
        append_assoc (be 2 (length msg)) msg rest,
        take-append_exact 2 (be 2 (length msg)) (msg ++ rest) (length-be 2 (length msg)),
        drop-append_exact 2 (be 2 (length msg)) (msg ++ rest) (length-be 2 (length msg)),
        of_be-be 2 (length msg) h,
        take-append_exact (length msg) msg rest refl,
        drop-append_exact (length msg) msg rest refl,
        length-be 2 (length msg),
      )
      (ground arith)

read_from-records :
    (fuel count : ℕ) (msgs : List Bytes) (tail : Bytes)
    → All Fits msgs
    → IsCut tail
    → length msgs ≤ fuel
    → read_from fuel none count (records msgs ++ tail) ≡ msgs
unfolding records
read_from-records fuel count [] tail h cut enough = read_from-IsCut fuel count tail cut
read_from-records zero count (msg ∷ msgs) tail h cut enough = absurd (omega arith)
read_from-records (suc fuel) count (msg ∷ msgs) tail h cut enough =
    rw (append_assoc (record_of msg) (records msgs) tail) (
      read_from-record_of fuel count msg (records msgs ++ tail) h.0
      ∙ ap (◌∷◌ msg) (read_from-records fuel (count + 1) msgs tail h.1 cut (omega arith)))

length-records : (msgs : List Bytes) → length msgs ≤ length (records msgs)
unfolding records
length-records [] = omega arith
length-records (msg ∷ msgs) = omega (
  arith,
  length-records msgs,
  length-append (record_of msg) (records msgs),
  length-append (be 2 (length msg)) msg,
  length-be 2 (length msg),
)

-- Reading a file of whole records, each shorter than 2^16 bytes, gives their messages in order, and a
-- record that is cut short at the end of the file is dropped.
pub read_messages-records :
    (msgs : List Bytes) (tail : Bytes)
    → All Fits msgs
    → IsCut tail
    → read_messages none (records msgs ++ tail) ≡ msgs
unfolding read_messages
read_messages-records msgs tail h cut =
    read_from-records (length (records msgs ++ tail)) 0 msgs tail h cut
      (omega (arith, length-records msgs, length-append (records msgs) tail))

-- A file either starts with a whole record or is cut short.
starts_with_record :
    (file : Bytes)
    → All IsByte file
    → IsCut file
      ⊎ ((msg : Bytes) × (rest : Bytes) × (file ≡ record_of msg ++ rest)
          × Fits msg
          × All IsByte rest)
unfolding of_be be
starts_with_record [] h = inl (inl (omega arith))
starts_with_record (a ∷ []) h = inl (inl (omega arith))
starts_with_record (a ∷ b ∷ body) h = elim (Bool-cases (ltb (length body) (a * 256 + b))) [
  | inl cut ↦ inl (inr (ground arith))
  | inr whole ↦
      let n = a * 256 + b in
      let size : length (take n body) ≡ n = ground (arith, length-take n body) in
      let high : (a * 256 + b) / 256 % 256 ≡ a = omega (arith, h.0, h.1.0) in
      let low : (a * 256 + b) % 256 ≡ b = omega (arith, h.0, h.1.0) in
      inr (
        take n body,
        drop n body,
        rw (size, high, low, take-append-drop n body) refl,
        omega (arith, size, h.0, h.1.0),
        All-drop IsByte n body h.1.1,
      )
]

read_from-covers :
    (fuel count : ℕ) (file : Bytes)
    → All IsByte file
    → length file ≤ fuel
    → (tail : Bytes) × (file ≡ records (read_from fuel none count file) ++ tail) × IsCut tail
unfolding records
read_from-covers zero count [] h enough =
    let cut : IsCut [] = inl (omega arith) in ([], rw (read_from-IsCut 0 count [] cut) refl, cut)
read_from-covers zero count (b ∷ file) h enough = absurd (omega arith)
read_from-covers (suc fuel) count file h enough = elim (starts_with_record file h) [
  | inl cut ↦ (file, rw (read_from-IsCut (suc fuel) count file cut) refl, cut)
  | inr (msg, rest, is, fits, hr) ↦
      let size = ap length is ∙ length-append (record_of msg) rest in
      let head = length-append (be 2 (length msg)) msg in
      let small : length rest ≤ fuel = omega (arith, size, head, length-be 2 (length msg)) in
      let (tail, covers, cut) = read_from-covers fuel (count + 1) rest hr small in
      let step = read_from-record_of fuel count msg rest fits in
      (
        tail,
        rw is (
            rw step (
              ap (λ (r : Bytes). record_of msg ++ r) covers
              ∙ sym (
                  append_assoc (record_of msg) (records (read_from fuel none (count + 1) rest))
                    tail))),
        cut,
      )
]

-- Whatever the bytes of a file are, what is read are the records that it starts with, and what is
-- left over is a record that is cut short.
pub read_messages-covers :
    (file : Bytes)
    → All IsByte file
    → (tail : Bytes) × (file ≡ records (read_messages none file) ++ tail) × IsCut tail
unfolding read_messages
read_messages-covers file h = read_from-covers (length file) 0 file h (omega arith)

take_empty : (n : ℕ) → take {A = Bytes} n [] ≡ []
take_empty zero = refl
take_empty (suc n) = refl

read_from-limit :
    (fuel limit count : ℕ) (file : Bytes)
    → read_from fuel (some limit) count file ≡ take (limit - count) (read_from fuel none count file)
unfolding read_from
read_from-limit zero limit count file = sym (take_empty (limit - count))
read_from-limit (suc fuel) limit count file = elim (Bool-cases (ltb count limit)) [
  | inl more ↦
      let left : limit - count ≡ suc (limit - (count + 1)) = ground arith in
      rw (left, more)
        (ground (
          arith,
          read_from-limit fuel limit (count + 1) (drop (of_be (take 2 file)) (drop 2 file)),
        ))
  | inr reached ↦ let none_left : limit - count ≡ 0 = ground arith in rw (none_left, reached) refl
]

-- A limit keeps the first messages.
pub read_messages-limit :
    (limit : ℕ) (file : Bytes)
    → read_messages (some limit) file ≡ take limit (read_messages none file)
unfolding read_messages
read_messages-limit limit file =
    let whole : limit - 0 ≡ limit = omega arith in
    rw whole at (read_from-limit (length file) limit 0 file)
