-- ===== src/BlockPool.antt =====
-- Memory/BlockMemPool.hpp: the pool of power-of-two blocks.
pub mod Sizes
pub mod Segment
pub mod Buckets
mod Examples
