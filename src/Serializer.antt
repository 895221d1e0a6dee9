-- ===== src/Serializer.antt =====
-- src/lib/serializer.hpp.
pub mod Layout
pub mod Laws
