-- ===== src/Replay/Runner.antt =====
-- src/replay.cpp, and `run_pcap` of src/pcap.cpp, on one thread: the loop over the parts of a file,
-- `process_message`, and what the result takes from the decoder and the book. The times that are
-- measured are a parameter, by the number of the message; `capacity` is what `samples.capacity()`
-- returns. The seconds and the percentiles of the result are floating-point numbers and are left out;
-- so is a stream that turns bad. A file that cannot be opened is `none`.
pub mod Whole
pub mod Feeds
use stock_data_engine.Base.{
  ℕ, zero, suc, ◌+◌, ◌%◌, ◌^◌, Bool, true, false, Option, none, some, List, [], ◌∷◌, ◌++◌, length,
  take, drop, ltb, ◌==◌, ◌&&◌, not, if◌then◌else◌,
}
use stock_data_engine.Itch.Messages.{Message}
use stock_data_engine.Itch.Framed.{DecoderStats, FramedDecoder, fresh_decoder, consume, finish}
use stock_data_engine.Book.Types.{OrderBook, BookStats, Quote}
use stock_data_engine.Book.Feed.{init, process, best_bid, best_ask}
use stock_data_engine.Replay.Types.{PcapFilter, PcapStats, no_stats}
use stock_data_engine.Replay.Capture.Input.{CaptureError}
use stock_data_engine.Replay.Session.{Session, start_session, decode_capture}

pub record Config : Type 0 where
  pub max_orders : ℕ
  pub max_levels : ℕ
  pub latency_samples : ℕ
  pub sample_every : ℕ
  pub symbol : List ℕ

-- What the callback acts on: `order_book`, `samples` and `seen`.
pub record Worker : Type 0 where
  pub order_book : OrderBook
  pub samples : List ℕ
  pub seen : ℕ

abbrev pub fresh_worker : OrderBook → Worker
fresh_worker book = record { order_book = book; samples = []; seen = 0 }

-- `Result`, less its floating-point numbers and the spins of the threads.
pub record Summary : Type 0 where
  pub messages : ℕ
  pub decoder : DecoderStats
  pub book : BookStats
  pub bid : Quote
  pub ask : Quote

unfoldable pub make_result : DecoderStats → OrderBook → Summary
unfolding best_bid best_ask
make_result decoder book = record {
  messages = decoder.decoded;
  decoder = decoder;
  book = book.stats;
  bid = best_bid book;
  ask = best_ask book;
}

abbrev pub no_decodes : DecoderStats
no_decodes = record { decoded = 0; malformed = 0; unsupported = 0 }

pub data RunError : Type 0 where
  cannot_open invalid_argument : RunError
  capture : CaptureError → RunError

pub data Outcome (A : Type 0) : Type 0 where
  throw : RunError → Outcome A
  ok : A → Outcome A

module _ (elapsed : ℕ → ℕ) (capacity : ℕ) (config : Config) where
  abbrev pub should_sample : Worker → Bool
  should_sample w =
      not (config.sample_every == 0)
      && (w.seen % config.sample_every == 0 && ltb (length w.samples) capacity)

  -- The callback: `process_message` with `seen++`.
  unfoldable pub process_message : Worker → Message → Worker
  unfolding process
  process_message w m = record {
    order_book = (process w.order_book m).1;
    samples = if should_sample w then w.samples ++ elapsed w.seen ∷ [] else w.samples;
    seen = (w.seen + 1) % 2 ^ 64;
  }

module _ {S : Type 0} (callback : S → Message → S) (buffer_size : ℕ) where
  -- The body of the loop behind `read`; `next` is the next round.
  abbrev pub read_part :
      (Bool → List ℕ → FramedDecoder → S → Option (FramedDecoder × S))
      → List ℕ
      → FramedDecoder
      → S
      → Option (FramedDecoder × S)
  read_part next input d s =
      let (go, d', s') = consume callback (take buffer_size input) d s in
      if length (take buffer_size input) == 0
      then some (d, s)
      else if go
      then next (not (ltb (length input) buffer_size)) (drop buffer_size input) d' s'
      else some (d', s')

  -- `while (input)`, with at most `n` rounds; `none` is a loop that goes on. `good` is the state of the
  -- stream, which `read` ends when fewer bytes are left than the buffer holds.
  unfoldable pub read_loop : ℕ → Bool → List ℕ → FramedDecoder → S → Option (FramedDecoder × S)
  read_loop zero good input d s = none
  read_loop (suc n) good input d s = if good then read_part (read_loop n) input d s else some (d, s)

module _ (elapsed : ℕ → ℕ) (capacity buffer_size : ℕ) (config : Config) where
  abbrev pub after_read : Option (FramedDecoder × Worker) → Option (Outcome Summary)
  after_read none = none
  after_read (some (d, w)) = some (ok (make_result (finish d).1.stats w.order_book))

  abbrev pub run_book : List ℕ → Option OrderBook → Option (Outcome Summary)
  run_book file none = some (throw invalid_argument)
  run_book file (some book) = after_read (
      read_loop (process_message elapsed capacity config) buffer_size (length file + 2) true file
        fresh_decoder (fresh_worker book))

  -- `none` is a run that goes on.
  unfoldable pub run_file : Option (List ℕ) → Option (Outcome Summary)
  unfolding make_result process_message read_loop init finish
  run_file none = some (throw cannot_open)
  run_file (some file) = run_book file (init config.max_orders config.max_levels config.symbol)

module _ (elapsed : ℕ → ℕ) (capacity : ℕ) (config : Config) where
  abbrev pub after_capture :
      Option (Option CaptureError × Session Worker) → Option (Outcome Summary × PcapStats)
  after_capture none = none
  after_capture (some (some e, s)) = some (throw (capture e), s.pcap_stats)
  after_capture (some (none, s)) =
      some (ok (make_result s.decoder_stats s.user.order_book), s.pcap_stats)

  abbrev pub run_pcap_book :
      List ℕ → PcapFilter → Option OrderBook → Option (Outcome Summary × PcapStats)
  run_pcap_book file filter none = some (throw invalid_argument, no_stats)
  run_pcap_book file filter (some book) = after_capture (
      decode_capture (process_message elapsed capacity config) file filter
        (start_session no_stats no_decodes (fresh_worker book)))

  -- `run_pcap`, with the statistics that it leaves, on a file that can be opened.
  unfoldable pub run_pcap : List ℕ → PcapFilter → Option (Outcome Summary × PcapStats)
  unfolding make_result process_message decode_capture init
  run_pcap file filter =
      run_pcap_book file filter (init config.max_orders config.max_levels config.symbol)
