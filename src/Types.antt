-- ===== src/Types.antt =====
-- The data that the pages work on: frontend/src/api/types.
mod Ledger
mod Others
mod Planning
pub use Ledger.*
pub use Others.*
pub use Planning.*
