-- ===== src/Trans.antt =====
-- trans/src: the translator of a C subset.
pub mod Token
pub mod Run
pub mod Lexer
pub mod Syntax
pub mod Parser
pub mod Emit
pub mod Main
mod Tests
