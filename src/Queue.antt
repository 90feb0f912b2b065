-- ===== src/Queue.antt =====
-- Queue/inc/Queue: the ring buffer with independent consumer cursors, and the bounded blocking queue.
pub mod Bits
pub mod RingBuffer
pub mod History
pub mod Reading
pub mod MpscQueue
pub mod Monitor
pub mod Gating
pub mod Stream
pub mod Delivery
