-- ===== src/Column.antt =====
-- src/lib/columnInstance.hpp and the type check of `DatabaseTable::try_insert` in
-- src/lib/table.hpp: from the literal of a query to the value of a column.
pub mod Stream
pub mod Cast
pub mod Range
pub mod Width
pub mod Codec
pub mod RoundTrip
pub mod File
pub mod Reload
pub mod Cells
pub mod Aborts
