-- ===== src/Nft.antt =====
-- crates/nft: the text of a ruleset, read into tokens.
pub mod Token
pub mod Error
pub mod Scan
pub mod Lex
pub mod Cursor
pub mod Values
pub mod Skip
pub mod Statement
pub mod Rule
pub mod Chain
pub mod Parse
