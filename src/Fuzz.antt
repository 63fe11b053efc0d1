-- ===== src/Fuzz.antt =====
-- model/fuzz_stream.py: the message builders and the packing of a stream.
pub mod Messages
pub mod Fields
pub mod RoundTrip
pub mod Packets
pub mod Draws
pub mod Generate
pub mod Corrupt
pub mod Sizes
pub mod Built
pub mod Generated
pub mod Corrupted
pub mod Build
pub mod Kept
pub mod Layout
pub mod Command
pub mod PacketsWrap
