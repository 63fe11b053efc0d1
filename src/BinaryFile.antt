-- ===== src/BinaryFile.antt =====
-- model/binaryfile.py: `read_messages`, over the bytes of the (uncompressed) file.
pub mod Records
pub mod Payloads
use hft_rtl.Prelude.{
  ℕ, zero, suc, ◌+◌, List, [], ◌∷◌, Bool, false, ltb, not, if◌then◌else◌, length, Option, none,
  some,
}
use hft_rtl.Prelude.Bytes.{Bytes, of_be, split_at}

-- `limit is None or count < limit`, negated.
abbrev pub is_reached : Option ℕ → ℕ → Bool
is_reached none count = false
is_reached (some limit) count = not (ltb count limit)

-- The loop; each turn reads at least the two bytes of a length.
unfoldable pub read_from : ℕ → Option ℕ → ℕ → Bytes → List Bytes
read_from zero limit count file = []
read_from (suc fuel) limit count file =
    let (hdr, body) = split_at 2 file in
    let (payload, next) = split_at (of_be hdr) body in
    let rest = read_from fuel limit (count + 1) next in
    if is_reached limit count
    then []
    else if ltb (length hdr) 2
    then []
    else if ltb (length payload) (of_be hdr)
    then []
    else payload ∷ rest

unfoldable pub read_messages : Option ℕ → Bytes → List Bytes
read_messages limit file = read_from (length file) limit 0 file
