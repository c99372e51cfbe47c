-- ===== src/Lex.antt =====
-- internal/lex: the lexer, a file for each of its parts.
pub mod Token
pub mod Cursor
pub mod Trims
pub mod Strings
pub mod Numbers
pub mod Code
pub mod Heads
pub mod Verbatim
pub mod Doors
pub mod Scan
pub mod Advance
pub mod Valid
pub mod Stream
pub mod Literal
pub mod TrimLaws
pub mod VerbatimLaws
pub mod Munch
