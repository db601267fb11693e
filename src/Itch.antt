-- ===== src/Itch.antt =====
-- include/itch and src/parser.cpp, src/moldudp64.cpp: the wire formats of the feed.
pub mod Messages
pub mod Parser
pub mod Framed
pub mod Mold
pub mod Sequence
