-- ===== src/Replay/Threads/Files.antt =====
-- `run_file_threaded` of src/replay.cpp: the producer's reading of the file, and the result.
use Prim.Native.Nat.{◌∣◌}
use stock_data_engine.Base.{
  ℕ, ◌+◌, ◌<◌, ◌≡◌, refl, sym, ap, ◌∙◌, arith, Bool, true, Option, none, some, List, [], ◌∷◌, ◌++◌,
  length,
}
use stock_data_engine.Itch.Messages.{Message}
use stock_data_engine.Itch.Framed.{FramedDecoder, fresh_decoder, consume, finish}
use stock_data_engine.Itch.Framed.Chunks.{fresh_decoder-IsDecoder}
use stock_data_engine.Itch.Framed.Callback.{over, consume-over}
use stock_data_engine.Book.Types.{OrderBook}
use stock_data_engine.Book.Feed.{init}
use stock_data_engine.Spsc.{word}
use stock_data_engine.Replay.Runner.{
  Config, Worker, fresh_worker, Summary, make_result, ok, process_message, read_loop, run_file,
}
use stock_data_engine.Replay.Runner.Whole.{left, read_loop-consume}
use stock_data_engine.Replay.Threads.{Threads, launch, finished, Runs}
use stock_data_engine.Replay.Threads.Order.{work_all, work_all-append, finished-work_all}

-- The producer's callback, as far as it decides what goes into the ring and in which order.
abbrev pub collect : List Message → Message → List Message
collect ms m = ms ++ m ∷ []

-- The producer's loop over the file: its decoder at the end, and the messages that it calls back with.
unfoldable pub produce : ℕ → List ℕ → Option (FramedDecoder × List Message)
unfolding read_loop
produce buffer_size file =
    read_loop collect buffer_size (length file + 2) true file fresh_decoder []

-- The result behind `producer.join()`.
unfoldable pub threaded_result : FramedDecoder → Threads Message Worker → Summary
unfolding make_result finish
threaded_result d s = make_result (finish d).1.stats s.worker.order_book

abbrev some_value : {A : Type 0} → A → Option A → A
some_value a none = a
some_value a (some b) = b

module _ (elapsed : ℕ → ℕ) (samples : ℕ) (config : Config) (buffer_size : ℕ)
    (room : 0 < buffer_size) where
  abbrev work : Worker → Message → Worker
  work = process_message elapsed samples config

  left-over :
      (w : Worker) (r : Bool × FramedDecoder × List Message)
      → left work buffer_size room
          (over collect work (work_all work w) (λ ms m. work_all-append work w ms m) r)
        ≡ ((left collect buffer_size room r).0, work_all work w (left collect buffer_size room r).1)
  left-over w (go, d, ms) = refl

  produced :
      (file : List ℕ) (d : FramedDecoder) (ms : List Message)
      → produce buffer_size file ≡ some (d, ms)
      → left collect buffer_size room (consume collect file fresh_decoder []) ≡ (d, ms)
  unfolding produce
  produced file d ms e = ap (some_value (d, ms)) (
      sym (
        read_loop-consume collect buffer_size room (length file + 2) file fresh_decoder []
          fresh_decoder-IsDecoder (omega arith))
      ∙ e)

  consume-produce :
      (file : List ℕ) (w : Worker) (d : FramedDecoder) (ms : List Message)
      → produce buffer_size file ≡ some (d, ms)
      → read_loop work buffer_size (length file + 2) true file fresh_decoder w
        ≡ some (d, work_all work w ms)
  consume-produce file w d ms e =
      read_loop-consume work buffer_size room (length file + 2) file fresh_decoder w
        fresh_decoder-IsDecoder (omega arith)
      ∙ (ap (λ r. some (left work buffer_size room r))
            (consume-over collect work (work_all work w) (λ ms m. work_all-append work w ms m) file
              fresh_decoder [])
          ∙ (ap some (left-over w (consume collect file fresh_decoder []))
              ∙ ap (λ (r : FramedDecoder × List Message). some (r.0, work_all work w r.1))
                  (produced file d ms e)))

  -- For a ring of a positive capacity below 2^64 that divides it, a buffer that is not empty, and
  -- a book that can be made: on any file, with the messages that the producer makes of it, in
  -- every interleaving of the two threads in which the consumer's loop has ended, the result is
  -- the one of the run on one thread.
  pub run_file-threaded :
      (zero_item : Message) (capacity : ℕ) (positive : 0 < capacity) (small : capacity < word)
      (divides : capacity ∣ word) (file : List ℕ) (book : OrderBook) (d : FramedDecoder)
      (ms : List Message) (s : Threads Message Worker)
      → init config.max_orders config.max_levels config.symbol ≡ some book
      → produce buffer_size file ≡ some (d, ms)
      → Runs zero_item capacity work (launch zero_item capacity work ms (fresh_worker book)) s
      → s.phase ≡ finished
      → run_file elapsed samples buffer_size config (some file) ≡ some (ok (threaded_result d s))
  unfolding run_file threaded_result
  run_file-threaded zero_item capacity positive small divides file book d ms s made e r end =
      rw
        (
          made,
          consume-produce file (fresh_worker book) d ms e,
          ← (finished-work_all zero_item capacity work ms (fresh_worker book) positive small divides
              s r end).0,
        )
        refl
