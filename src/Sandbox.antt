-- ===== src/Sandbox.antt =====
-- comp/src/sandbox.rs: the capability model, `.ufs` files and the effective policy.
pub mod Pattern
pub mod Resolve
pub mod Files
pub mod Within
pub mod Caps
pub mod Effective
pub mod Ufs
pub mod Bake
mod Tests
