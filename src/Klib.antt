-- ===== src/Klib.antt =====
-- The freestanding library that the kernel and the programs share (klib/).
pub mod Bsearch
pub mod Ascii
pub mod Mem
pub mod Str
pub mod Compare
pub mod Digits
pub mod Numeral
pub mod Fmt
pub mod Tests
