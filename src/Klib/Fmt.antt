-- ===== src/Klib/Fmt.antt =====
-- The formatted output of klib/string.c (vstrfmt) and klib/snprintf.c: the arguments, the conversion
-- specifications, the fields that they print, and the loop over the format.
pub mod Args
pub mod Directive
pub mod Field
pub mod Double
pub mod Loop
pub mod Rest
pub mod Scale
pub mod Fuel
pub mod Print
pub mod Width
pub mod TextBound
pub mod RealBound
pub mod Bounded
pub mod Snprintf
pub mod Tests
