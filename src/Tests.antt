-- ===== src/Tests.antt =====
-- Runs on concrete inputs, and the theorems at concrete inputs, a module for each part.
mod Book
mod Market
mod Ouch
mod Strategy
mod Risk
mod BinaryFile
mod Mold
mod Trace
mod Symbols
mod Traces
mod Orders
mod Fuzz
mod FuzzStream
