-- ===== src/Text.antt =====
-- Python's `str` as the list of its code points, with the methods that the library calls.
mod Equality
mod Strip
mod Solid
mod Ends
mod Words
unfoldable pub use Equality.*
unfoldable pub use Strip.*
pub use Ends.*
pub use Solid.*
unfoldable pub use Words.*
