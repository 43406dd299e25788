-- ===== src/Text.antt =====
-- The operations of `std::string` and `std::string_view` that the program uses, over lists of bytes,
-- and `tolower` and `isspace` in the "C" locale. A position is an `Option`: `none` is `npos`.
mod Defs
pub mod Search
pub mod Append
unfoldable pub use Defs.*
