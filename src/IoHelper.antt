-- ===== src/IoHelper.antt =====
-- iohelper: chunks of bytes that flow from a source through filters into a sink.
-- A byte slice is the list of its bytes; `Chunk` adds what the code asks of a slice's memory.
pub mod Filter
pub mod Source
pub mod Sink
pub mod Pump
pub mod Stream
pub mod Fresh
pub mod Copy
pub mod Hashing
pub mod Stuck
pub mod Files
pub mod Download
mod Tests
