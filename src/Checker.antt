-- ===== src/Checker.antt =====
-- comp/src/parse.rs: the checks of the stack depth at label calls.
pub mod Program
pub mod Effects
pub mod Depths
pub mod Walk
pub mod Moves
pub mod Arity
pub mod Entries
pub mod Exits
mod Tests
