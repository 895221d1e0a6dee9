-- ===== src/LinkedList.antt =====
-- src/lib/linkedList.hpp.
pub mod KeyValueList
pub mod ListFre
pub mod Cortina
pub mod ListBase
