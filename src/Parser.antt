-- ===== src/Parser.antt =====
-- src/lib/analyzer: the tokens of a query and how they compare.
pub mod Tokens
pub mod Compare
pub mod Equality
pub mod Tokenizer
pub mod Patterns
pub mod Parse
pub mod Validate
