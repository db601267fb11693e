-- ===== src/Replay/Threads/Tests.antt =====
-- The two threads of src/replay.cpp on a file of one message, with a ring of two slots.
use Prim.Native.Nat.{◌∣◌}
use native.Mathlib.Nat.{dvd_of_mod-eq-zero}
use stock_data_engine.Base.{ℕ, ◌+◌, ◌<◌, ◌≡◌, refl, ap, ◌∙◌, arith, some, List, [], ◌∷◌, length}
use stock_data_engine.Itch.Messages.{Message, order_delete}
use stock_data_engine.Itch.Parser.Encode.{encode, Fits}
use stock_data_engine.Itch.Mold.Frames.{frames}
use stock_data_engine.Itch.Framed.{FramedDecoder, fresh_decoder, consume}
use stock_data_engine.Itch.Framed.Chunks.{fresh_decoder-IsDecoder}
use stock_data_engine.Itch.Framed.Encoded.{consume-encode}
use stock_data_engine.Book.Feed.{init, fresh_book}
use stock_data_engine.Spsc.{word}
use stock_data_engine.Replay.Runner.{Config, Worker, fresh_worker, ok, process_message, run_file}
use stock_data_engine.Replay.Runner.Whole.{read_loop-consume}
use stock_data_engine.Replay.Threads.{Threads, launch, finished, Runs, here}
use stock_data_engine.Replay.Threads.Sample.{after, one_message}
use stock_data_engine.Replay.Threads.Order.{work_all, finished-work_all}
use stock_data_engine.Replay.Threads.Ends.{Runs-Ends}
use stock_data_engine.Replay.Threads.Files.{collect, produce, threaded_result, run_file-threaded}

abbrev delete_77 : Message
delete_77 = order_delete (record {
  header = record { stock_locate = 1; tracking_number = 2; timestamp = 3 };
  order_id = 77;
})

two_small : 2 < word
two_small = omega arith

two_divides : 2 ∣ word
two_divides = dvd_of_mod-eq-zero 2 refl

abbrev count_messages : ℕ → Message → ℕ
count_messages n m = n + 1

finished-work_all_example :
    ((after delete_77 count_messages 0 1).worker ≡ work_all count_messages 0 (delete_77 ∷ []))
    × ((after delete_77 count_messages 0 1).system.popped ≡ delete_77 ∷ [])
    × ((after delete_77 count_messages 0 1).todo ≡ [])
finished-work_all_example =
    finished-work_all delete_77 2 count_messages (delete_77 ∷ []) 0 (omega arith) two_small
      two_divides (after delete_77 count_messages 0 1) (one_message delete_77 count_messages 0) refl

Runs-Ends_example :
    (t : Threads Message ℕ) × Runs delete_77 2 count_messages
      (launch delete_77 2 count_messages (delete_77 ∷ []) 0)
      t
    × (t.phase ≡ finished)
    × (t.worker ≡ 1)
Runs-Ends_example =
    Runs-Ends delete_77 2 count_messages (delete_77 ∷ []) 0 (omega arith) two_small two_divides
      (launch delete_77 2 count_messages (delete_77 ∷ []) 0) here

abbrev config : Config
config = record {
  max_orders = 2;
  max_levels = 2;
  latency_samples = 4;
  sample_every = 2;
  symbol = [];
}

init-config : init config.max_orders config.max_levels config.symbol ≡ some (fresh_book 2 2 [])
unfolding init
init-config = refl

abbrev file : List ℕ
file = frames (encode delete_77 ∷ [])

abbrev decoder : FramedDecoder
decoder = (consume collect file fresh_decoder []).1

produce-file : produce 7 file ≡ some (decoder, delete_77 ∷ [])
unfolding produce
produce-file =
    read_loop-consume collect 7 (omega arith) (length file + 2) file fresh_decoder []
      fresh_decoder-IsDecoder (omega arith)
    ∙ ap (λ ms. some (decoder, ms))
        (consume-encode collect (delete_77 ∷ []) fresh_decoder []
          (record { valid = fresh_decoder-IsDecoder; no_length = refl }) (fits, tt)).state_is
  where
    fits : Fits delete_77
    fits = ((omega arith, omega arith, omega arith), omega arith)

abbrev work : Worker → Message → Worker
work = process_message (λ n. 5) 4 config

abbrev end : Threads Message Worker
end =
    after delete_77 work (fresh_worker (fresh_book 2 2 []))
      (work (fresh_worker (fresh_book 2 2 [])) delete_77)

run_file-threaded_example :
    run_file (λ n. 5) 4 7 config (some file) ≡ some (ok (threaded_result decoder end))
run_file-threaded_example =
    run_file-threaded (λ n. 5) 4 config 7 (omega arith) delete_77 2 (omega arith) two_small
      two_divides file (fresh_book 2 2 []) decoder (delete_77 ∷ []) end init-config produce-file
      (one_message delete_77 work (fresh_worker (fresh_book 2 2 []))) refl
