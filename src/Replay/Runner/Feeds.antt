-- ===== src/Replay/Runner/Feeds.antt =====
-- What a run of src/replay.cpp and one of src/pcap.cpp make of the same messages.
use stock_data_engine.Base.{
  ℕ, ◌+◌, ◌<◌, ◌≡◌, refl, Bool, some, List, [], ◌∷◌, ◌++◌, length, map, arith, All, IsU64, inl,
}
use stock_data_engine.Itch.Messages.{Message}
use stock_data_engine.Itch.Parser.Encode.{encode, Fits}
use stock_data_engine.Itch.Mold.Frames.{frames}
use stock_data_engine.Itch.Framed.{fresh_decoder}
use stock_data_engine.Itch.Framed.Chunks.{fresh_decoder-IsDecoder}
use stock_data_engine.Itch.Framed.Frame.{AtStart}
use stock_data_engine.Itch.Framed.Cut.{finish-AtStart}
use stock_data_engine.Itch.Framed.Encoded.{call_all, count_all, consume-encode}
use stock_data_engine.Itch.Sequence
use stock_data_engine.Itch.Sequence.Gaps.{Contiguous, total}
use stock_data_engine.Book.Types.{OrderBook}
use stock_data_engine.Book.Feed.{init, process}
use stock_data_engine.Replay.Types.{PcapFilter, PcapStats, no_stats}
use stock_data_engine.Replay.Capture.Written.{Written, IsWritten, file_bytes, packet_of}
use stock_data_engine.Replay.Session.{Session, start_session, handle_all}
use stock_data_engine.Replay.Session.Stream.{Sent, Carries, all_messages, packets_of, headers_of}
use stock_data_engine.Replay.Session.Restart.{handle_all-restart}
use stock_data_engine.Replay.Session.Whole.{decode_capture-file}
use stock_data_engine.Replay.Runner.{
  Config, Worker, fresh_worker, Summary, make_result, no_decodes, ok, process_message, run_file,
  run_pcap,
}
use stock_data_engine.Replay.Runner.Whole.{read_loop-consume}

-- The book after the messages.
unfoldable pub process_all : OrderBook → List Message → OrderBook
process_all book [] = book
process_all book (m ∷ ms) = process_all (process book m).1 ms

pub fresh_decoder-AtStart : AtStart fresh_decoder
fresh_decoder-AtStart = record { valid = fresh_decoder-IsDecoder; no_length = refl }

All-append : (xs ys : List Message) → All Fits xs → All Fits ys → All Fits (xs ++ ys)
All-append [] ys f g = g
All-append (x ∷ xs) ys f g = (f.0, All-append xs ys f.1 g)

all_messages-Fits :
    (filter : PcapFilter) (xs : List Sent) → All (Carries filter) xs → All Fits (all_messages xs)
all_messages-Fits filter [] c = tt
all_messages-Fits filter (x ∷ xs) c =
    All-append x.messages (all_messages xs) c.0.5.2 (all_messages-Fits filter xs c.1)

module _ (elapsed : ℕ → ℕ) (capacity : ℕ) (config : Config) where
  call_all-process_message :
      (w : Worker) (ms : List Message)
      → (call_all (process_message elapsed capacity config) w ms).order_book
        ≡ process_all w.order_book ms
  unfolding process_all process_message
  call_all-process_message w [] = refl
  call_all-process_message w (m ∷ ms) =
      call_all-process_message (process_message elapsed capacity config w m) ms

  module _ (book : OrderBook)
      (made : init config.max_orders config.max_levels config.symbol ≡ some book) where
    -- A file of the framed messages, whose fields fit the wire format.
    run_file-encode :
        (buffer_size : ℕ) (ms : List Message)
        → 0 < buffer_size
        → All Fits ms
        → run_file elapsed capacity buffer_size config (some (frames (map encode ms)))
          ≡ some (ok (make_result (count_all no_decodes ms) (process_all book ms)))
    unfolding run_file
    run_file-encode buffer_size ms room f =
        let callback = process_message elapsed capacity config in
        let file = frames (map encode ms) in
        let heard =
          consume-encode callback ms fresh_decoder (fresh_worker book) fresh_decoder-AtStart f in
        rw
          (
            made,
            read_loop-consume callback buffer_size room (length file + 2) file fresh_decoder
                (fresh_worker book) fresh_decoder-IsDecoder (omega arith),
            finish-AtStart _ heard.at_start,
            heard.stats_are,
            heard.state_is,
            call_all-process_message (fresh_worker book) ms,
          )
          refl

    -- The session that `decode_capture` begins with.
    abbrev begin : Session Worker
    begin = start_session no_stats no_decodes (fresh_worker book)

    run_pcap-messages :
        (little nanoseconds : Bool) (middle : List ℕ) (link : ℕ) (ws : List Written)
        (filter : PcapFilter) (x : Sent) (xs : List Sent)
        → length middle ≡ 12
        → All IsWritten ws
        → map (packet_of link) ws ≡ packets_of (x ∷ xs)
        → All (Carries filter) (x ∷ xs)
        → Contiguous x.header.session x.header.sequence (headers_of (x ∷ xs))
        → IsU64 (x.header.sequence + total (headers_of (x ∷ xs)))
        → (stats : PcapStats) × (stats.sequence_gaps ≡ 0)
          × (stats.missing_messages ≡ 0)
          × (run_pcap elapsed capacity config (file_bytes little nanoseconds middle link ws) filter
              ≡ some (
                ok (
                    make_result
                      (count_all no_decodes (all_messages (x ∷ xs)))
                      (process_all book (all_messages (x ∷ xs)))),
                stats,
              ))
    unfolding run_pcap
    run_pcap-messages little nanoseconds middle link ws filter x xs twelve written same carries line
          fits =
        let callback = process_message elapsed capacity config in
        let received =
          handle_all-restart callback filter x xs begin carries
            (inl (unfold Sequence.reset in refl, refl)) line fits in
        let handled = handle_all callback filter (packets_of (x ∷ xs)) begin in
        (
          handled.pcap_stats,
          received.2,
          received.3,
          rw
              (
                made,
                decode_capture-file callback filter little nanoseconds middle link ws begin twelve
                    written,
                same,
                received.1,
                received.0,
                call_all-process_message (fresh_worker book) (all_messages (x ∷ xs)),
              )
              refl,
        )

    -- A feed in two forms, for a book that can be made: a PCAP file, in either byte order, of
    -- packets of at most 65,536 bytes, which all hold, in datagrams that pass the filter, the
    -- MoldUDP64 packets of one session behind one another, within 64-bit sequence numbers; and the
    -- file of the same messages framed, read with a buffer of any size but 0. Each packet of the
    -- session has a header that fits its fields and as many messages as it counts, fewer than
    -- 65,535 and none in a heartbeat, or ends the session with none; and each message is the
    -- encoding of one of the 22 types with fields that fit the wire format, an operational halt
    -- with its action for a market code. Both runs end without an exception and give the same
    -- result, which is that of the book after exactly these messages in their order; the capture
    -- shows no gap.
    pub run_pcap-run_file :
        (little nanoseconds : Bool) (middle : List ℕ) (link : ℕ) (ws : List Written)
        (filter : PcapFilter) (x : Sent) (xs : List Sent) (buffer_size : ℕ)
        → length middle ≡ 12
        → All IsWritten ws
        → map (packet_of link) ws ≡ packets_of (x ∷ xs)
        → All (Carries filter) (x ∷ xs)
        → Contiguous x.header.session x.header.sequence (headers_of (x ∷ xs))
        → IsU64 (x.header.sequence + total (headers_of (x ∷ xs)))
        → 0 < buffer_size
        → (result : Summary) × (stats : PcapStats) × (stats.sequence_gaps ≡ 0)
          × (result
              ≡ make_result
                  (count_all no_decodes (all_messages (x ∷ xs)))
                  (process_all book (all_messages (x ∷ xs))))
          × (run_pcap elapsed capacity config (file_bytes little nanoseconds middle link ws) filter
              ≡ some (ok result, stats))
          × (run_file elapsed capacity buffer_size config
                (some (frames (map encode (all_messages (x ∷ xs)))))
              ≡ some (ok result))
    run_pcap-run_file little nanoseconds middle link ws filter x xs buffer_size twelve written same
          carries line fits room =
        let (stats, gaps, _, pcap) =
          run_pcap-messages little nanoseconds middle link ws filter x xs twelve written same
            carries line fits in
        (
          make_result (count_all no_decodes (all_messages (x ∷ xs)))
              (process_all book (all_messages (x ∷ xs))),
          stats,
          gaps,
          refl,
          pcap,
          run_file-encode buffer_size (all_messages (x ∷ xs)) room
              (all_messages-Fits filter (x ∷ xs) carries),
        )
