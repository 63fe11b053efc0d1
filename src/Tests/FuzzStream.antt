-- ===== src/Tests/FuzzStream.antt =====
-- The generators of model/fuzz_stream.py with a counter for random numbers.
use native.Mathlib.Nat.{mod-lt}
use hft_rtl.Prelude.{
  true, ℕ, ◌+◌, ◌*◌, ◌-◌, ◌%◌, ◌≡◌, inl, inr, refl, some, none, List, [], ◌∷◌, ◌++◌, arith, Text,
  length, nat_eq, Bool-cases, All, All-append, All-replicate, replicate, map,
}
use hft_rtl.Prelude.Strip.{lstrip, rstrip, strip}
use hft_rtl.Symbols.{symbols_of, split, stripped, join_with}
use hft_rtl.Fuzz.Command.{Args, default_args, main, Describes, main-Describes}
use hft_rtl.Prelude.Bytes.{Bytes, IsByte, be, pack_be, ljust_with, is_ascii, ascii, pack_s, join}
use hft_rtl.Prelude.Result.{ok, Returns}
use hft_rtl.Mold.{
  pack_messages, pack_hdr, pack_packet, session_field, end_of_session_packet, flush, add, close,
  write_all,
}
use hft_rtl.Fuzz.Messages
use hft_rtl.Fuzz.Messages.{pack_c}
use hft_rtl.Fuzz.Packets.{extend, pack_batch, pack_batches, pack_packets}
use hft_rtl.Fuzz.Draws.{Rng, InRange}
use hft_rtl.Fuzz.Built.{IsBuilt, IsAscii}
use hft_rtl.Fuzz.Generate.{
  sym8, choice, cancel_some, execute_some, replace_some, follow_up, system_event, system_some, turn,
  generate_from, generate_messages,
}
use hft_rtl.Fuzz.Generated.{generate_messages-IsBuilt}
use hft_rtl.Fuzz.Corrupt.{
  Corrupted, draw_other, flip_byte, flip_some, random_bytes, resize, lie_about_length,
  corrupt_message,
}
use hft_rtl.Fuzz.Corrupted.{Yields, Varies, IsCorrupted, corrupt_message-IsCorrupted}
use hft_rtl.Fuzz.Build.{corrupt_all, keep_packets, finish, build_fuzz_stream, default_symbols}
use hft_rtl.Fuzz.Layout.{IsFuzz, build_fuzz_stream-IsFuzz}

program : Unit {0}
unfolding be pack_be ljust_with is_ascii ascii pack_s join pack_messages pack_hdr pack_packet
    session_field end_of_session_packet flush add close write_all Messages.add Messages.exec
    Messages.exec_price Messages.cancel Messages.delete Messages.replace Messages.system pack_c
    extend pack_batch pack_batches pack_packets sym8 choice cancel_some execute_some replace_some
    follow_up system_event system_some turn generate_from generate_messages draw_other flip_byte
    flip_some random_bytes resize lie_about_length corrupt_message corrupt_all keep_packets finish
    build_fuzz_stream
program = tt

-- The state counts the draws.
abbrev counter : Rng ℕ
counter = record {
  randrange = λ start stop g. (start + g % (stop - start), g + 1);
  choice_index = λ n g. (g % n, g + 1);
  random = λ g. (g % 10 * 900719925474099, g + 1);
}

counter-InRange : InRange counter
counter-InRange = record {
  randrange_from = λ start stop g h. omega arith;
  randrange_below = λ start stop g h. omega (arith, mod-lt g {m = stop - start} (omega arith));
  choice_below = λ n g h. mod-lt g h;
}

-- Of two bytes in a row the second is another one.
counter-Varies : Varies counter 2
counter-Varies orig g = elim (Bool-cases (nat_eq (g % 256) orig)) [
  | inl e ↦ (1, omega arith, λ h. ground (arith, h, e))
  | inr e ↦ (0, omega arith, λ h. ground (arith, h, e))
]

abbrev delete_one : Bytes
delete_one = b'D' ∷ replicate 17 0 ++ 1 ∷ []

delete_one-IsByte : All IsByte delete_one
delete_one-IsByte = (
  omega arith,
  All-append IsByte (replicate 17 0) (1 ∷ []) (All-replicate IsByte 17 0 (omega arith))
      (omega arith, tt),
)

no_change :
    corrupt_message counter 2 delete_one 5 5 50 4
    ≡ some (record { bytes = delete_one; changed = 0; bogus_len = none; rng_state = 6 })
unfolding program
no_change = refl

flips_and_cuts :
    (c : Corrupted ℕ) × (corrupt_message counter 2 delete_one 9007199254740992 9007199254740992 50 3
      ≡ some c)
    × (c.changed ≡ 2)
    × (c.bogus_len ≡ some 7)
    × (c.bytes ≡ b'D' ∷ 0 ∷ 0 ∷ 0 ∷ 5 ∷ 0 ∷ 0 ∷ [])
unfolding program
flips_and_cuts = (_, refl, refl, refl, refl)

corrupt_message-IsCorrupted_example :
    Yields
      (IsCorrupted counter counter-InRange delete_one 50)
      (corrupt_message counter 2 delete_one 9007199254740992 9007199254740992 50 3)
corrupt_message-IsCorrupted_example =
    corrupt_message-IsCorrupted counter counter-InRange 2 9007199254740992 9007199254740992 50
      delete_one 3 counter-Varies delete_one-IsByte

abbrev symbols : List Text
symbols = (b'S' ∷ b'P' ∷ b'Y' ∷ []) ∷ (b'Q' ∷ []) ∷ []

symbols-IsAscii : All IsAscii symbols
unfolding is_ascii
symbols-IsAscii = (refl, (refl, tt))

sizes_generated :
    (r : List Bytes × ℕ) × (generate_messages counter 5 symbols 0 ≡ ok r)
    × (map length r.0 ≡ 36 ∷ 23 ∷ 36 ∷ 19 ∷ 36 ∷ [])
unfolding program
sizes_generated = (_, refl, refl)

generate_messages-IsBuilt_example :
    Returns
      (λ (r : List Bytes × ℕ). (length r.0 ≡ 5) × All IsBuilt r.0)
      (generate_messages counter 5 symbols 0)
generate_messages-IsBuilt_example =
    generate_messages-IsBuilt counter counter-InRange symbols (omega arith) symbols-IsAscii 5 0
      (omega arith)

build_fuzz_stream-IsFuzz_example :
    Returns
      (Yields (IsFuzz counter counter-InRange 5 3 2))
      (build_fuzz_stream counter (λ seed. seed) 2 7 symbols 5 3 2)
build_fuzz_stream-IsFuzz_example =
    build_fuzz_stream-IsFuzz counter counter-InRange 2 counter-Varies symbols symbols-IsAscii 5 3 2
      (omega arith) (omega arith) (omega arith) (omega arith) (λ seed. seed) 7

abbrev args : Args
args = record (default_args 7) {
  meta = true;
  symbols = b'S' ∷ b'P' ∷ b'Y' ∷ b',' ∷ b' ' ∷ b'Q' ∷ b',' ∷ [];
  n_dirty = 5;
  n_tail = 3;
  msgs_per_packet = 2;
}

args-IsAscii : All IsAscii (symbols_of args.symbols)
unfolding split stripped lstrip rstrip strip is_ascii
args-IsAscii = (refl, (refl, tt))

main-Describes_example : Returns (Yields (Describes args)) (main counter (λ seed. seed) 2 args)
main-Describes_example =
    main-Describes counter counter-InRange (λ seed. seed) 2 args counter-Varies args-IsAscii
      (omega arith) (omega arith) (omega arith) (omega arith)

-- The default argument names the default symbols.
symbols_of-default : symbols_of (default_args 7).symbols ≡ default_symbols
unfolding join_with split stripped lstrip rstrip strip
symbols_of-default = refl
