-- ===== src/Replay.antt =====
-- src/pcap.cpp, src/replay.cpp and include/replay: captures, and the replay of a feed into a book.
pub mod Types
pub mod Udp
pub mod Capture
pub mod Session
pub mod Runner
pub mod Threads
mod Samples
mod Tests
