-- ===== src/Tests.antt =====
-- Concrete queries, columns and rows.
mod LittleEndian
mod Data
mod Queries
mod Columns
mod Texts
mod Printed
mod Rows
mod Nodes
