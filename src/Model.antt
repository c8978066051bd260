-- ===== src/Model.antt =====
-- The stored objects (simplyblock_core/models) and the database access (simplyblock_core/db_controller.py).
mod Status
mod Records
mod Query
pub mod Keys
pub mod Order
pub mod Members
pub use Status.*
pub use Records.*
unfoldable pub use Query.*
