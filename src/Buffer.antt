-- ===== src/Buffer.antt =====
-- Byte buffers: the reference-counted blocks, the buffer that shares and copies them on write, and the
-- stream that reads from and writes to such a buffer.
pub mod Heap
pub mod Shared
pub mod ByteBuffer
pub mod Stream
