-- ===== src/Tests.antt =====
-- Runs of the models, and instances of the theorems at concrete inputs.
mod Bignum
mod Bits
mod Text
mod HashTable
mod Utf8
mod Sort
mod Threads
mod Gc
mod Pairs
mod Sha2
