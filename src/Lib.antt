-- ===== src/Lib.antt =====
-- A verification library for the stock data engine: an ITCH 5.0 decoder, a MoldUDP64 packet
-- decoder with a sequence tracker, a limit order book, and a single-producer single-consumer
-- ring.
--
-- How the parts interact: packets come in (src/pcap.cpp), `MoldDecoder::decode` splits them into
-- messages with sequence numbers, `SequenceTracker::observe` reports gaps, `parse_message` turns
-- the bytes of a message into a `Message`, and `OrderBook::process` applies it to the book.
--
-- Which file models what:
-- - Base, Base/Tests, Base/Lists, Base/Words: shared names, Boolean tests on the native numbers,
--   lists indexed by them, and the widths of machine words.
-- - Itch/Messages: include/itch/messages.hpp, a record for each struct and `Message` for the
--   variant.
-- - Itch/Parser: src/parser.cpp, `expected_message_length` and `parse_message`. Parser/Read is
--   the class `Reader` as a state monad over the bytes left; Parser/Market and Parser/Orders
--   have one reader for each case of the switch; Parser/Encode is the wire format, written
--   independently of the readers, with the market code of an operational halt that the struct
--   lacks; Parser/Fields, Parser/MarketTrips, Parser/OrderTrips and Parser/RoundTrip compare the
--   two; Parser/Reads, Parser/MarketReads, Parser/OrderReads and Parser/Total bound the reads.
-- - Itch/Framed: `FramedDecoder` of include/itch/parser.hpp, with its buffers. Framed/Bytewise
--   reads the loop byte by byte, Framed/Chunks cuts the input into parts, Framed/Frame,
--   Framed/Stream, Framed/Cut and Framed/Encoded are about whole frames, cut ones, and frames of
--   encoded messages, Framed/Callback about what the callback does with its state.
-- - Itch/Mold: include/itch/moldudp64.hpp, `MoldDecoder::decode`. The callback and the gate act
--   on a state that is a parameter. Mold/Frames, Mold/Dispatch, Mold/Packet and
--   Mold/Callback are its proofs.
-- - Itch/Sequence: `SequenceTracker` of src/moldudp64.cpp; Sequence/Gaps its proofs.
-- - Book/Types: the data of include/book/order_book.hpp. Pointers into `orders_` and indices
--   into `levels_` are optional positions.
-- - Book/Lookup: `lookup_find`, `lookup_insert` and `lookup_erase` of src/order_book.cpp, the
--   open-addressed hash table with backward-shift deletion. Lookup/Arc has the arithmetic of
--   probe arcs, Lookup/Table the invariant, Lookup/Find and Lookup/Insert the first two
--   operations, Lookup/Shift, Lookup/Round and Lookup/Erase the deletion.
-- - Book/Fifo: `append` and `unlink`, the intrusive queue of a level; Fifo/Distinct, Fifo/Links
--   and Fifo/Queue relate it to a list of positions, Fifo/Append and Fifo/Unlink are the two
--   operations.
-- - Book/Pool: the free lists of orders and levels. Book/Tree: the AVL tree of levels.
--   Book/Ladder: the levels of one side. Book/Engine: `add`, `reduce`, `execute`, `cancel`,
--   `erase`, `replace`; Engine/Refusal, Engine/Index, Engine/Counters their proofs. Book/Feed: the
--   constructor, `process` and the queries; Feed/Accounting the counters of `process`. All are
--   of src/order_book.cpp; `OrderBook` is passed on explicitly.
-- - Spsc: include/queue/spsc_ring.hpp. Spsc/Step interleaves a producer and a consumer between
--   any two of their accesses to shared memory; Spsc/Invariant and Spsc/Safety prove what holds
--   in every reachable state, Spsc/Queue compares whole calls with a list.
-- - Replay/Types: include/replay/pcap.hpp. Replay/Udp: `extract_udp_payload` of src/pcap.cpp, where
--   a read or a span past the end would be `none`; Udp/Bounds, Udp/Ipv4 and Udp/Ethernet its proofs.
-- - Replay/Capture: `CaptureReader` of src/pcap.cpp over the bytes of a file that are not read yet,
--   each exception a `throw`. Capture/Fields, Capture/Input and Capture/Blocks have its numbers, its
--   state and the blocks of PCAP-NG; Capture/Progress and Capture/Total are about the ends of its
--   loops, Capture/Written about PCAP files written by the format.
-- - Replay/Session: `decode_capture` of src/pcap.cpp, with its locals as a record and the callback
--   on a state of the caller's. Session/Gate, Session/Messages, Session/Stream, Session/Restart,
--   Session/Lost, Session/Whole and Session/Callback are its proofs.
-- - Replay/Runner: src/replay.cpp and the branch of `run_pcap_impl` on one thread; Runner/Whole and
--   Runner/Feeds its proofs.
-- - Replay/Threads: the two threads of `run_file_threaded` in src/replay.cpp and of `run_pcap_impl` in
--   src/pcap.cpp, interleaved between any two of their accesses to the ring and to
--   `producer_done`; Threads/Order, Threads/Turns and Threads/Ends are about all interleavings,
--   Threads/Files and Threads/Captures join them with the reading of a file. Threads/Sample is a run
--   of theirs for the tests.
-- - Generate: tools/generate_feed.cpp, the writer, its messages and its loop; Generate/Messages
--   and Generate/Decoded its proofs.
-- - Replay/Samples has the packets of the tests. The modules called Tests run the definitions
--   and apply the theorems at concrete inputs.
--
-- Bounds and fuel: a machine integer is a native number, with the source's wrap-around written
-- out at its width (`% 2 ^ w`). A probe of the hash table has as many rounds as the table has
-- slots, as in the source; the backward shift has no bound in the source and here as many rounds
-- as slots, which is enough as long as some slot is empty. A walk in the tree has one round more
-- than there are levels. The loops over an input (frames, VLAN tags, blocks of a capture, packets,
-- parts of a file) have as many rounds as there are bytes, or one or two more, since every round
-- takes a byte at least; a loop whose rounds ran out would give `none`. The generator's loop has one
-- round more than messages are asked for.
--
-- A file is the list of its bytes, and reading it never fails but at its end; the buffer that a
-- read fills and the span that shows a part of it are the bytes themselves. `std::istream::read`
-- gives as many bytes as are left, and ends the stream when they are fewer than asked for; seeking
-- past the end succeeds.
--
-- Not modelled: src/main.cpp; the times, rates and percentiles of a result, which are measured or
-- floating-point numbers, and the counts of spins; files that cannot be opened (but for `run_file`)
-- or read; the functions `to_string`; the tests and benchmarks. The ring's memory order is taken to
-- be sequentially consistent.
pub mod Base
pub mod Itch
pub mod Book
pub mod Spsc
pub mod Replay
pub mod Generate
