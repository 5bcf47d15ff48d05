-- ===== src/Types.antt =====
-- cogno_engram/types.py: the records that the ports carry, and the rules on edge statuses and
-- audiences.
pub mod Status
pub mod Audience
mod Records
unfoldable pub use Status.*
unfoldable pub use Audience.*
unfoldable pub use Records.*
