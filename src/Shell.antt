-- ===== src/Shell.antt =====
-- The micro-shell of Assignment-2/Parser.
pub mod Token
pub mod Lexer
pub mod Command
pub mod Grammar
pub mod Parser
pub mod Print
pub mod Descriptors
pub mod System
pub mod Environment
pub mod Process
pub mod Builtins
pub mod Driver
pub mod RoundTrip
pub mod Main
mod DriverTests
mod BuiltinTests
mod Tests
