-- ===== src/Buffer.antt =====
-- pkg/datastructs/buffer: byte buffers.
pub mod LinkedList
pub mod Ring
