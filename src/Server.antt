-- ===== src/Server.antt =====
-- src/main.cpp: what `resolve` does with a query.
pub mod Query
pub mod Databases
pub mod Compare
pub mod Select
