-- ===== src/Automata/InsertQuery.antt =====
-- `INSERT INTO DATABASE.TABLE (v, w, ...);` in src/lib/analyzer/automata.cpp.
pub mod Grammar
mod Rows
pub mod Exact
