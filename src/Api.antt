-- ===== src/Api.antt =====
-- internal/api/types.go: the wire types.
mod Records
mod Samples
pub use Records.*
pub use Samples.*
