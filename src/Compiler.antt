-- ===== src/Compiler.antt =====
-- src/compiler: the front end that turns a line of text into words for the virtual machine.
pub mod Lexer
pub mod Names
pub mod Cursor
pub mod Expr
pub mod Stream
pub mod Fns
pub mod Emit
pub mod Action
pub mod Body
pub mod Command
pub mod Symbols
pub mod Emitter
pub mod Native
mod Tests
