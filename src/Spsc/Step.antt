-- ===== src/Spsc/Step.antt =====
-- One producer and one consumer on an `SpscRing`, interleaved between any two of their accesses to
-- shared memory. The producer and the consumer each have a program counter; the histories of items
-- published and of items released are kept beside the ring.
use stock_data_engine.Base.{ℕ, ◌≡◌, none, some, List, [], ◌∷◌, ◌++◌}
use stock_data_engine.Spsc.{
  SpscRing, fresh_ring, load_push, write_slot, store_head, load_pop, read_slot, store_tail,
}

-- Between calls; past the loads, with room; past the write to the slot.
pub data Producer (T : Type 0) : Type 0 where
  idle : Producer T
  loaded : ℕ → T → Producer T
  written : ℕ → T → Producer T

pub data Consumer (T : Type 0) : Type 0 where
  idle : Consumer T
  loaded : ℕ → Consumer T
  moved : ℕ → T → Consumer T

pub record System (T : Type 0) : Type 0 where
  pub ring : SpscRing T
  pub producer : Producer T
  pub consumer : Consumer T
  pub pushed : List T
  pub popped : List T

module _ {T : Type 0} (zero_item : T) (capacity : ℕ) where
  abbrev pub start : System T
  start = record {
    ring = fresh_ring zero_item capacity;
    producer = Producer.idle;
    consumer = Consumer.idle;
    pushed = [];
    popped = [];
  }

  pub data Step : System T → System T → Type 0 where
    push_refused :
        (s : System T)
        → s.producer ≡ Producer.idle
        → load_push zero_item capacity s.ring ≡ none
        → Step s s
    push_load :
        (s : System T) (value : T) (head : ℕ)
        → s.producer ≡ Producer.idle
        → load_push zero_item capacity s.ring ≡ some head
        → Step s (record s { producer = Producer.loaded head value })
    push_write :
        (s : System T) (value : T) (head : ℕ)
        → s.producer ≡ Producer.loaded head value
        → Step s (record s {
          ring = write_slot zero_item capacity s.ring head value;
          producer = Producer.written head value;
        })
    push_publish :
        (s : System T) (value : T) (head : ℕ)
        → s.producer ≡ Producer.written head value
        → Step s (record s {
          ring = store_head zero_item capacity s.ring head;
          producer = Producer.idle;
          pushed = s.pushed ++ value ∷ [];
        })
    pop_refused :
        (s : System T)
        → s.consumer ≡ Consumer.idle
        → load_pop zero_item capacity s.ring ≡ none
        → Step s s
    pop_load :
        (s : System T) (tail : ℕ)
        → s.consumer ≡ Consumer.idle
        → load_pop zero_item capacity s.ring ≡ some tail
        → Step s (record s { consumer = Consumer.loaded tail })
    pop_read :
        (s : System T) (tail : ℕ)
        → s.consumer ≡ Consumer.loaded tail
        → Step s
            (record s { consumer = Consumer.moved tail (read_slot zero_item capacity s.ring tail) })
    pop_release :
        (s : System T) (tail : ℕ) (value : T)
        → s.consumer ≡ Consumer.moved tail value
        → Step s (record s {
          ring = store_tail zero_item capacity s.ring tail;
          consumer = Consumer.idle;
          popped = s.popped ++ value ∷ [];
        })

  pub data Reach (s : System T) : System T → Type 0 where
    here : Reach s s
    next : {t u : System T} → Reach s t → Step t u → Reach s u
