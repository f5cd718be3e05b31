-- ===== src/Pool.antt =====
-- The memory pool of `v2`. An address is a number.
pub mod SizeClass
pub mod PageCache
pub mod CentralCache
pub mod ThreadCache
