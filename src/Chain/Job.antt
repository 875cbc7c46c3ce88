-- ===== src/Chain/Job.antt =====
-- apps/web/lib/chain/chainJob.ts, in two parts, and what they guarantee.
pub mod Schema
pub mod Codec
pub mod Semantics
pub mod Laws
pub mod Build
pub mod Built
unfoldable pub use Schema.*
unfoldable pub use Codec.*
