-- ===== src/Book.antt =====
-- include/book/order_book.hpp and src/order_book.cpp: the limit order book.
pub mod Types
pub mod Lookup
pub mod Pool
pub mod Fifo
pub mod Tree
pub mod Ladder
pub mod Engine
pub mod Feed
mod Tests
