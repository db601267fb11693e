-- ===== src/Replay/Threads/Captures.antt =====
-- The branch of `run_pcap_impl` in src/pcap.cpp on two threads: the producer's decoding of the capture,
-- and the result, with the exception that the producer may have met.
use Prim.Native.Nat.{◌∣◌}
use stock_data_engine.Base.{ℕ, ◌<◌, ◌≡◌, refl, Option, none, some, List, []}
use stock_data_engine.Itch.Messages.{Message}
use stock_data_engine.Book.Types.{OrderBook}
use stock_data_engine.Book.Feed.{init}
use stock_data_engine.Spsc.{word}
use stock_data_engine.Replay.Types.{PcapFilter, PcapStats, no_stats}
use stock_data_engine.Replay.Capture.Input.{CaptureError}
use stock_data_engine.Replay.Session.{Session, start_session, decode_capture}
use stock_data_engine.Replay.Session.Callback.{with_user, decode_capture-with_user}
use stock_data_engine.Replay.Runner.{
  Config, Worker, fresh_worker, Summary, make_result, no_decodes, Outcome, throw, ok, capture,
  process_message, after_capture, run_pcap,
}
use stock_data_engine.Replay.Threads.{Threads, launch, finished, Runs}
use stock_data_engine.Replay.Threads.Order.{work_all, work_all-append, finished-work_all}
use stock_data_engine.Replay.Threads.Files.{collect}

-- The producer: its exception, if it met one, and what it leaves.
unfoldable pub produce_capture :
    List ℕ → PcapFilter → Option (Option CaptureError × Session (List Message))
unfolding decode_capture
produce_capture file filter =
    decode_capture collect file filter (start_session no_stats no_decodes [])

-- What follows `producer.join()`, with the statistics that are left.
unfoldable pub threaded_capture :
    Option CaptureError × Session (List Message)
    → Threads Message Worker
    → Outcome Summary × PcapStats
unfolding make_result
threaded_capture (some e, p) s = (throw (capture e), p.pcap_stats)
threaded_capture (none, p) s = (ok (make_result p.decoder_stats s.worker.order_book), p.pcap_stats)

module _ (elapsed : ℕ → ℕ) (samples : ℕ) (config : Config) where
  abbrev work : Worker → Message → Worker
  work = process_message elapsed samples config

  same_result :
      (w : Worker) (e : Option CaptureError) (p : Session (List Message))
      (s : Threads Message Worker)
      → s.worker ≡ work_all work w p.user
      → after_capture elapsed samples config (some (e, with_user (work_all work w) p))
        ≡ some (threaded_capture (e, p) s)
  unfolding threaded_capture
  same_result w none p s same = rw same refl
  same_result w (some e) p s same = refl

  -- For a ring of a positive capacity below 2^64 that divides it, and a book that can be made: on
  -- any capture, with the messages that the producer makes of it, in every interleaving of the two
  -- threads in which the consumer's loop has ended, the result and the statistics are those of the
  -- run on one thread, an exception of the reader included.
  pub run_pcap-threaded :
      (zero_item : Message) (capacity : ℕ) (positive : 0 < capacity) (small : capacity < word)
      (divides : capacity ∣ word) (file : List ℕ) (filter : PcapFilter) (book : OrderBook)
      (e : Option CaptureError) (p : Session (List Message)) (s : Threads Message Worker)
      → init config.max_orders config.max_levels config.symbol ≡ some book
      → produce_capture file filter ≡ some (e, p)
      → Runs zero_item capacity work (launch zero_item capacity work p.user (fresh_worker book)) s
      → s.phase ≡ finished
      → run_pcap elapsed samples config file filter ≡ some (threaded_capture (e, p) s)
  unfolding run_pcap produce_capture
  run_pcap-threaded zero_item capacity positive small divides file filter book e p s made produced r
        end =
      rw
        (
          made,
          decode_capture-with_user (work_all work (fresh_worker book)) collect work
              (λ ms m. work_all-append work (fresh_worker book) ms m) file filter
              (start_session no_stats no_decodes []),
          produced,
        )
        (same_result (fresh_worker book) e p s
          (finished-work_all zero_item capacity work p.user (fresh_worker book) positive small
            divides s r end).0)
