-- ===== src/Ed25519.antt =====
-- comp/src/ed25519.rs: field arithmetic, scalars, SHA-512 and Ed25519 signatures.
pub mod Digits
pub mod Field
mod Tests
pub mod Scalar
pub mod Signature
pub mod Group
pub mod Sha512
