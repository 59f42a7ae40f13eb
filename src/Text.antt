-- ===== src/Text.antt =====
-- Go strings as lists of bytes, with the functions of `strings`, `strconv` and `hash/adler32`
-- that the controllers call. The functions and their laws are in the modules below.
pub mod Bytes
pub mod Split
pub mod Search
pub mod Decimal
pub mod Checksum
pub mod Replace
pub use Bytes.{Text, eq_iff, eq_refl, eq_comm, append-cancel_left, append-cancel_right}
unfoldable pub use Bytes.{text, ◌==◌}
