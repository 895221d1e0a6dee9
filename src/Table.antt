-- ===== src/Table.antt =====
-- src/lib/table.hpp: the descriptor of a table.
pub mod TypeCheck
pub mod Row
