-- ===== src/Replay/Threads/Sample.antt =====
-- A run of the two threads of src/replay.cpp for one message, with a ring of two slots.
use stock_data_engine.Base.{refl, true, [], ◌∷◌}
use stock_data_engine.Itch.Messages.{Message}
use stock_data_engine.Spsc.{is_empty}
use stock_data_engine.Spsc.Step.{Producer, Consumer}
use stock_data_engine.Replay.Threads.{
  Threads, launch, at_done, finished, Runs, here, then_step, take_message, write_message,
  publish_message, signal, see_done, see_items, leave, find_item, read_item, process_item,
}

module _ {W : Type 0} (m : Message) (work : W → Message → W) (w : W) where
  abbrev pub after : W → Threads Message W
  after w' = record {
    system = record {
      ring = record { storage = m ∷ m ∷ []; head = 1; tail = 1 };
      producer = Producer.idle;
      consumer = Consumer.idle;
      pushed = m ∷ [];
      popped = m ∷ [];
    };
    todo = [];
    producer_done = true;
    phase = finished;
    worker = w';
  }

  published : Runs m 2 work (launch m 2 work (m ∷ []) w) (record (after w) {
    system = record {
      ring = record { storage = m ∷ m ∷ []; head = 1; tail = 0 };
      producer = Producer.idle;
      consumer = Consumer.idle;
      pushed = m ∷ [];
      popped = [];
    };
    phase = at_done;
  })
  published =
      then_step
        (then_step
          (then_step (then_step here (take_message _ m [] 0 refl refl refl))
            (write_message _ m 0 refl))
          (publish_message _ m 0 refl))
        (signal _ refl refl)

  pub one_message : Runs m 2 work (launch m 2 work (m ∷ []) w) (after (work w m))
  unfolding is_empty
  one_message =
      then_step
        (then_step
          (then_step
            (then_step
              (then_step
                (then_step (then_step published (see_done _ refl refl)) (see_items _ refl refl))
                (find_item _ 0 refl refl refl))
              (read_item _ 0 refl refl))
            (process_item _ 0 m refl refl))
          (see_done _ refl refl))
        (leave _ refl refl)
