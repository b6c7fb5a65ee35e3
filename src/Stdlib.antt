-- ===== src/Stdlib.antt =====
-- What the sources use of Go's standard library, on texts of ASCII bytes.
pub mod Numbers
pub mod Strings
