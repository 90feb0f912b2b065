-- ===== src/Sharding.antt =====
-- Sharding/inc/Sharding and Sharding/src: a shard with the books of its symbols, and the router.
pub mod Shard
pub mod Streams
pub mod Router
pub mod Draining
pub mod Tops
pub mod Worker
pub mod Working
pub mod Rounds
pub mod Threads
pub mod Serving
pub mod Books
