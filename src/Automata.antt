-- ===== src/Automata.antt =====
-- src/lib/analyzer/automata.hpp and automata.cpp: from the tokens of a query to an action.
pub mod Actions
pub mod State
pub mod Values
pub mod Keywords
pub mod Symbols
pub mod Identifiers
pub mod Operators
pub mod Run
pub mod Scan
pub mod Recognize
pub mod Consistent
pub mod Safety
pub mod Roots
pub mod InsertQuery
pub mod NameQueries
pub mod ShowQueries
pub mod SelectQuery
pub mod TableQuery
