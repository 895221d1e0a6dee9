-- ===== src/Automata/TableQuery.antt =====
-- What `get_action_struct` does to `CREATE TABLE`.
pub mod Grammar
pub mod Steps
pub mod Fields
pub mod Columns
pub mod Exact
