-- ===== src/Tests/BinaryFile.antt =====
-- model/binaryfile.py on concrete files.
use hft_rtl.Prelude.{◌≡◌, refl, List, [], ◌∷◌, ◌++◌, arith, some, none, inr}
use hft_rtl.Prelude.Bytes.{Bytes, be, of_be}
use hft_rtl.BinaryFile.{read_from, read_messages}
use hft_rtl.BinaryFile.Records.{records, IsCut, read_messages-records, read_messages-covers}

program : Unit {0}
unfolding read_from read_messages be of_be records
program = tt

abbrev msgs : List Bytes
msgs = (7 ∷ 8 ∷ 9 ∷ []) ∷ [] ∷ (1 ∷ []) ∷ []

-- A record of five bytes of which two are there.
abbrev tail : Bytes
tail = 0 ∷ 5 ∷ 1 ∷ 2 ∷ []

abbrev file : Bytes
file = 0 ∷ 3 ∷ 7 ∷ 8 ∷ 9 ∷ 0 ∷ 0 ∷ 0 ∷ 1 ∷ 1 ∷ 0 ∷ 5 ∷ 1 ∷ 2 ∷ []

reads_file : read_messages none file ≡ msgs
unfolding program
reads_file = refl

reads_two : read_messages (some 2) file ≡ (7 ∷ 8 ∷ 9 ∷ []) ∷ [] ∷ []
unfolding program
reads_two = refl

tail-IsCut : IsCut tail
unfolding program
tail-IsCut = inr (omega arith)

read_messages-records_example : read_messages none (records msgs ++ tail) ≡ msgs
read_messages-records_example =
    read_messages-records msgs tail (omega arith, (omega arith, (omega arith, tt))) tail-IsCut

read_messages-covers_example :
    (tail' : Bytes) × (file ≡ records (read_messages none file) ++ tail') × IsCut tail'
read_messages-covers_example = read_messages-covers file (
  omega arith,
  (
    omega arith,
    (
      omega arith,
      (
        omega arith,
        (
          omega arith,
          (
            omega arith,
            (
              omega arith,
              (
                omega arith,
                (
                  omega arith,
                  (omega arith, (omega arith, (omega arith, (omega arith, (omega arith, tt))))),
                ),
              ),
            ),
          ),
        ),
      ),
    ),
  ),
)
