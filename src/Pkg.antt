-- ===== src/Pkg.antt =====
-- comp/src/pkg.rs: packages.
pub mod Grant
pub mod Lock
pub mod Source
pub mod Date
pub mod Approval
pub mod Meta
pub mod Origin
pub mod Version
pub mod Envelope
pub mod Diff
pub mod Install
mod Samples
mod Tests
