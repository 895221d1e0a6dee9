-- ===== src/Automata/SelectQuery.antt =====
-- `USING DATABASE SELECT T.C, ... WHERE T.C op v AND ...;` in src/lib/analyzer/automata.cpp.
pub mod Grammar
mod Clauses
pub mod Complete
pub mod Crashes
