-- ===== src/Bignum.antt =====
-- bignum.c: magnitude-and-sign integers over 64-bit digits.
pub mod Digits
pub mod Hi
pub mod Compare
pub mod Normalize
pub mod Fixnum
pub mod Sum
pub mod Product
pub mod Text
