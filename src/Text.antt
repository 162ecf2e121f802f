-- ===== src/Text.antt =====
-- Strings of Rust as lists of code points, with the calls of the standard library that the
-- programs make on them: `str::split_once`, `lines`, `split_whitespace` and `len`.
mod Calls
mod Split
mod Lines
mod Words
mod Behind
mod Fields
mod Decimal
unfoldable pub use Calls.*
pub use Split.*
pub use Lines.*
pub use Words.*
pub use Behind.*
pub use Fields.*
unfoldable pub use Decimal.*
