-- ===== src/Fifo.antt =====
-- fifo.c: the queue of sample buffers between the receiver's thread and the demodulator's.
pub mod Defs
pub mod Overlap
pub mod Conservation
pub mod InOrder
mod Tests
