-- ===== src/Replay/Threads.antt =====
-- The two threads of `run_file_threaded` in src/replay.cpp and of `run_pcap_impl` in src/pcap.cpp: the
-- producer hands the decoder's messages to an `SpscRing`, the consumer processes what it takes out.
-- The threads are interleaved between any two of their accesses to shared memory, `producer_done`
-- and the ring's.
pub mod Order
pub mod Turns
pub mod Ends
pub mod Files
pub mod Captures
pub mod Sample
mod Tests
use stock_data_engine.Base.{ℕ, ◌≡◌, none, some, Bool, true, false, List, [], ◌∷◌, ◌++◌}
use stock_data_engine.Spsc.{
  load_push, write_slot, store_head, load_pop, read_slot, store_tail, is_empty,
}
use stock_data_engine.Spsc.Step.{Producer, Consumer, System, start}

-- Where the consumer's loop is: at the load of `producer_done`, at the test of `empty` behind it, in
-- the body, and behind the loop.
pub data Phase : Type 0 where
  at_done at_empty in_body finished : Phase

-- The producer's decoder calls back with each of its messages in turn, and the callback returns when
-- the message is in the ring: `todo` are the messages behind the one that it is at.
pub record Threads (T W : Type 0) : Type 0 where
  pub system : System T
  pub todo : List T
  pub producer_done : Bool
  pub phase : Phase
  pub worker : W

module _ {T W : Type 0} (zero_item : T) (capacity : ℕ) (work : W → T → W) where
  -- Before the threads run.
  abbrev pub launch : List T → W → Threads T W
  launch messages w = record {
    system = start zero_item capacity;
    todo = messages;
    producer_done = false;
    phase = at_done;
    worker = w;
  }

  pub data ThreadStep : Threads T W → Threads T W → Type 0 where
    spin :
        (s : Threads T W) (value : T) (rest : List T)
        → s.todo ≡ value ∷ rest
        → s.system.producer ≡ Producer.idle
        → load_push zero_item capacity s.system.ring ≡ none
        → ThreadStep s s
    take_message :
        (s : Threads T W) (value : T) (rest : List T) (head : ℕ)
        → s.todo ≡ value ∷ rest
        → s.system.producer ≡ Producer.idle
        → load_push zero_item capacity s.system.ring ≡ some head
        → ThreadStep s (record s {
          system = record s.system { producer = Producer.loaded head value };
          todo = rest;
        })
    write_message :
        (s : Threads T W) (value : T) (head : ℕ)
        → s.system.producer ≡ Producer.loaded head value
        → ThreadStep s (record s {
          system = record s.system {
            ring = write_slot zero_item capacity s.system.ring head value;
            producer = Producer.written head value;
          };
        })
    publish_message :
        (s : Threads T W) (value : T) (head : ℕ)
        → s.system.producer ≡ Producer.written head value
        → ThreadStep s (record s {
          system = record s.system {
            ring = store_head zero_item capacity s.system.ring head;
            producer = Producer.idle;
            pushed = s.system.pushed ++ value ∷ [];
          };
        })
    signal :
        (s : Threads T W)
        → s.todo ≡ []
        → s.system.producer ≡ Producer.idle
        → ThreadStep s (record s { producer_done = true })
    see_running :
        (s : Threads T W)
        → s.phase ≡ at_done
        → s.producer_done ≡ false
        → ThreadStep s (record s { phase = in_body })
    see_done :
        (s : Threads T W)
        → s.phase ≡ at_done
        → s.producer_done ≡ true
        → ThreadStep s (record s { phase = at_empty })
    see_items :
        (s : Threads T W)
        → s.phase ≡ at_empty
        → is_empty zero_item capacity s.system.ring ≡ false
        → ThreadStep s (record s { phase = in_body })
    leave :
        (s : Threads T W)
        → s.phase ≡ at_empty
        → is_empty zero_item capacity s.system.ring ≡ true
        → ThreadStep s (record s { phase = finished })
    find_nothing :
        (s : Threads T W)
        → s.phase ≡ in_body
        → s.system.consumer ≡ Consumer.idle
        → load_pop zero_item capacity s.system.ring ≡ none
        → ThreadStep s (record s { phase = at_done })
    find_item :
        (s : Threads T W) (tail : ℕ)
        → s.phase ≡ in_body
        → s.system.consumer ≡ Consumer.idle
        → load_pop zero_item capacity s.system.ring ≡ some tail
        → ThreadStep s (record s { system = record s.system { consumer = Consumer.loaded tail } })
    read_item :
        (s : Threads T W) (tail : ℕ)
        → s.phase ≡ in_body
        → s.system.consumer ≡ Consumer.loaded tail
        → ThreadStep s (record s {
          system = record s.system {
            consumer = Consumer.moved tail (read_slot zero_item capacity s.system.ring tail);
          };
        })
    process_item :
        (s : Threads T W) (tail : ℕ) (value : T)
        → s.phase ≡ in_body
        → s.system.consumer ≡ Consumer.moved tail value
        → ThreadStep s (record s {
          system = record s.system {
            ring = store_tail zero_item capacity s.system.ring tail;
            consumer = Consumer.idle;
            popped = s.system.popped ++ value ∷ [];
          };
          phase = at_done;
          worker = work s.worker value;
        })

  pub data Runs (s : Threads T W) : Threads T W → Type 0 where
    here : Runs s s
    then_step : {t u : Threads T W} → Runs s t → ThreadStep t u → Runs s u
