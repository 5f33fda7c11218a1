-- ===== src/Shell.antt =====
-- SP_LAB4: the shell `snush`, from the line that is read to the checked list of tokens.
mod Tests
pub mod Token
pub mod DynArray
pub mod Lexer
pub mod Syntax
pub mod Util
