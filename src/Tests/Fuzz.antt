-- ===== src/Tests/Fuzz.antt =====
-- The builders and the packing of model/fuzz_stream.py on concrete messages.
use hft_rtl.Prelude.{refl, false, [], ◌∷◌, arith, Text, List, none, ◌≡◌, ◌++◌}
use hft_rtl.Prelude.Bytes.{Bytes, is_ascii}
use hft_rtl.Prelude.Result.{ok, raise, value_error, ◌>>=◌}
use hft_rtl.Mold.{wrap, pack_hdr, session_field, end_marker}
use hft_rtl.Fuzz.Packets.{pack_packets}
use hft_rtl.Fuzz.PacketsWrap.{wrap-pack_packets}
use hft_rtl.Fuzz.RoundTrip.{Build, add, build, meaning, ParsesBack, parse_message-build}

abbrev spy : Text
spy = b'S' ∷ b'P' ∷ b'Y' ∷ 32 ∷ 32 ∷ 32 ∷ 32 ∷ 32 ∷ []

abbrev order : Build
order = add 0x0102030405060708 (b'B' ∷ []) 5000 spy 1000000 false

parse_message-build_example : ParsesBack (build order) (meaning order)
unfolding is_ascii
parse_message-build_example =
    parse_message-build order (omega arith, refl, refl, omega arith, refl, refl, omega arith)

abbrev msgs : List Bytes
msgs = (7 ∷ 8 ∷ []) ∷ (9 ∷ []) ∷ [] ∷ []

refuses_no_messages : pack_packets msgs [] 0 1 ≡ raise value_error
unfolding pack_packets
refuses_no_messages = refl

wrap-pack_packets_example : wrap msgs spy 2 5 none ≡ (
    pack_packets msgs spy 2 5 >>= λ packed.
    pack_hdr (session_field spy) packed.1 end_marker >>= λ trailer. ok (packed.0 ++ trailer ∷ []))
wrap-pack_packets_example = wrap-pack_packets msgs spy 2 5 (omega arith)
