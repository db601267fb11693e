-- ===== src/Replay/Threads/Order.antt =====
-- The two threads of src/replay.cpp and src/pcap.cpp do the work of one, in its order.
use Prim.Native.Nat.{◌∣◌}
use stock_data_engine.Base.{
  ℕ, ◌<◌, ◌≡◌, ◌≢◌, refl, sym, ap, ◌∙◌, arith, true, some, List, [], ◌∷◌, ◌++◌, length, append-nil,
  append_assoc, length-append, ==→eq,
}
use stock_data_engine.Spsc.{word, load_push, is_empty}
use stock_data_engine.Spsc.Step.{Producer, Consumer, System, Step, Reach, start}
use stock_data_engine.Spsc.Step
use stock_data_engine.Spsc.Safety.{Reach-fifo, Reach-size}
use stock_data_engine.Replay.Threads.{
  Phase, at_done, at_empty, in_body, finished, Threads, launch, ThreadStep, spin, take_message,
  write_message, publish_message, signal, see_running, see_done, see_items, leave, find_nothing,
  find_item, read_item, process_item, Runs, here, then_step,
}

-- The message that the producer is about to put in the ring.
abbrev pub in_hand : {T : Type 0} → Producer T → List T
in_hand Producer.idle = []
in_hand (Producer.loaded head value) = value ∷ []
in_hand (Producer.written head value) = value ∷ []

-- The work of one thread.
abbrev pub work_all : {T W : Type 0} → (W → T → W) → W → List T → W
work_all work w [] = w
work_all work w (m ∷ ms) = work_all work (work w m) ms

pub work_all-append :
    {T W : Type 0} (work : W → T → W) (w : W) (xs : List T) (y : T)
    → work_all work w (xs ++ y ∷ []) ≡ work (work_all work w xs) y
work_all-append work w [] y = refl
work_all-append work w (x ∷ xs) y = work_all-append work (work w x) xs y

no_items : {T : Type 0} (xs : List T) → length xs ≡ 0 → xs ≡ []
no_items [] e = refl
no_items (x ∷ xs) e = absurd (omega (arith, e))

pub loaded_busy : {T : Type 0} (head : ℕ) (value : T) → Producer.loaded head value ≢ Producer.idle
loaded_busy head value e = ground (arith, e)

pub written_busy : {T : Type 0} (head : ℕ) (value : T) → Producer.written head value ≢ Producer.idle
written_busy head value e = ground (arith, e)

module _ {T W : Type 0} (zero_item : T) (capacity : ℕ) (work : W → T → W) (all : List T)
    (w : W) where
  -- What holds between the ring, the producer, the consumer and its loop.
  pub record IsRunning (s : Threads T W) : Type 0 where
    pub reached : Reach zero_item capacity (start zero_item capacity) s.system
    pub sent : s.system.pushed ++ (in_hand s.system.producer ++ s.todo) ≡ all
    pub worked : s.worker ≡ work_all work w s.system.popped
    pub quiet : s.producer_done ≡ true → (s.todo ≡ []) × (s.system.producer ≡ Producer.idle)
    pub drained : s.phase ≡ at_empty → s.producer_done ≡ true
    pub ended : s.phase ≡ finished → (s.producer_done ≡ true) × (s.system.popped ≡ s.system.pushed)

  launch-IsRunning : IsRunning (launch zero_item capacity work all w)
  launch-IsRunning = record {
    reached = Step.here;
    sent = refl;
    worked = refl;
    quiet = λ e. absurd (ground (arith, e));
    drained = λ e. absurd (ground (arith, e));
    ended = λ e. absurd (ground (arith, e));
  }

  take_message-IsRunning :
      (s : Threads T W) (value : T) (rest : List T) (head : ℕ)
      → s.todo ≡ value ∷ rest
      → s.system.producer ≡ Producer.idle
      → load_push zero_item capacity s.system.ring ≡ some head
      → IsRunning s
      → IsRunning (record s {
        system = record s.system { producer = Producer.loaded head value };
        todo = rest;
      })
  take_message-IsRunning s value rest head more idle room v = record {
    reached = Step.next v.reached (Step.push_load s.system value head idle room);
    sent =
        ap (λ p. s.system.pushed ++ (in_hand p ++ value ∷ rest)) (sym idle)
        ∙ (ap (λ t. s.system.pushed ++ (in_hand s.system.producer ++ t)) (sym more) ∙ v.sent);
    worked = v.worked;
    quiet = λ e. ground (arith, v.quiet e, more);
    drained = v.drained;
    ended = λ e. ground (arith, v.quiet (v.ended e).0, more);
  }

  write_message-IsRunning :
      (s : Threads T W) (t : System T)
      → Step zero_item capacity s.system t
      → t.pushed ≡ s.system.pushed
      → t.popped ≡ s.system.popped
      → in_hand t.producer ≡ in_hand s.system.producer
      → s.system.producer ≢ Producer.idle
      → IsRunning s
      → IsRunning (record s { system = t })
  write_message-IsRunning s t step same_pushed same_popped same_hand busy v = record {
    reached = Step.next v.reached step;
    sent =
        ap (λ h. t.pushed ++ (h ++ s.todo)) same_hand
        ∙ (ap (λ p. p ++ (in_hand s.system.producer ++ s.todo)) same_pushed ∙ v.sent);
    worked = v.worked ∙ ap (work_all work w) (sym same_popped);
    quiet = λ e. absurd (busy (v.quiet e).1);
    drained = v.drained;
    ended = λ e. absurd (busy (v.quiet (v.ended e).0).1);
  }

  publish_message-IsRunning :
      (s : Threads T W) (t : System T) (value : T)
      → Step zero_item capacity s.system t
      → t.pushed ≡ s.system.pushed ++ value ∷ []
      → t.popped ≡ s.system.popped
      → in_hand t.producer ≡ []
      → in_hand s.system.producer ≡ value ∷ []
      → s.system.producer ≢ Producer.idle
      → IsRunning s
      → IsRunning (record s { system = t })
  publish_message-IsRunning s t value step more same_popped free held busy v = record {
    reached = Step.next v.reached step;
    sent =
        ap (λ h. t.pushed ++ (h ++ s.todo)) free
        ∙ (ap (λ p. p ++ s.todo) more
            ∙ (append_assoc s.system.pushed (value ∷ []) s.todo
                ∙ (ap (λ h. s.system.pushed ++ (h ++ s.todo)) (sym held) ∙ v.sent)));
    worked = v.worked ∙ ap (work_all work w) (sym same_popped);
    quiet = λ e. absurd (busy (v.quiet e).1);
    drained = v.drained;
    ended = λ e. absurd (busy (v.quiet (v.ended e).0).1);
  }

  -- A step of the consumer before its last.
  consume-IsRunning :
      (s : Threads T W) (t : System T)
      → Step zero_item capacity s.system t
      → t.pushed ≡ s.system.pushed
      → t.popped ≡ s.system.popped
      → t.producer ≡ s.system.producer
      → IsRunning s
      → IsRunning (record s { system = t })
  consume-IsRunning s t step same_pushed same_popped same_producer v = record {
    reached = Step.next v.reached step;
    sent =
        ap (λ p. t.pushed ++ (in_hand p ++ s.todo)) same_producer
        ∙ (ap (λ p. p ++ (in_hand s.system.producer ++ s.todo)) same_pushed ∙ v.sent);
    worked = v.worked ∙ ap (work_all work w) (sym same_popped);
    quiet = λ e. ((v.quiet e).0, same_producer ∙ (v.quiet e).1);
    drained = v.drained;
    ended = λ e. ((v.ended e).0, same_popped ∙ ((v.ended e).1 ∙ sym same_pushed));
  }

  process_item-IsRunning :
      (s : Threads T W) (t : System T) (value : T)
      → Step zero_item capacity s.system t
      → t.pushed ≡ s.system.pushed
      → t.popped ≡ s.system.popped ++ value ∷ []
      → t.producer ≡ s.system.producer
      → IsRunning s
      → IsRunning (record s { system = t; phase = at_done; worker = work s.worker value })
  process_item-IsRunning s t value step same_pushed more same_producer v = record {
    reached = Step.next v.reached step;
    sent =
        ap (λ p. t.pushed ++ (in_hand p ++ s.todo)) same_producer
        ∙ (ap (λ p. p ++ (in_hand s.system.producer ++ s.todo)) same_pushed ∙ v.sent);
    worked =
        ap (λ x. work x value) v.worked
        ∙ (sym (work_all-append work w s.system.popped value) ∙ ap (work_all work w) (sym more));
    quiet = λ e. ((v.quiet e).0, same_producer ∙ (v.quiet e).1);
    drained = λ e. absurd (ground (arith, e));
    ended = λ e. absurd (ground (arith, e));
  }

  -- The consumer's loop goes on.
  turn-IsRunning :
      (s : Threads T W) (p : Phase)
      → (p ≡ at_empty → s.producer_done ≡ true)
      → p ≢ finished
      → IsRunning s
      → IsRunning (record s { phase = p })
  turn-IsRunning s p empty on v = record {
    reached = v.reached;
    sent = v.sent;
    worked = v.worked;
    quiet = v.quiet;
    drained = empty;
    ended = λ e. absurd (on e);
  }

  signal-IsRunning :
      (s : Threads T W)
      → s.todo ≡ []
      → s.system.producer ≡ Producer.idle
      → IsRunning s
      → IsRunning (record s { producer_done = true })
  signal-IsRunning s none_left idle v = record {
    reached = v.reached;
    sent = v.sent;
    worked = v.worked;
    quiet = λ e. (none_left, idle);
    drained = λ e. refl;
    ended = λ e. (refl, (v.ended e).1);
  }

  module _ (positive : 0 < capacity) (small : capacity < word) (divides : capacity ∣ word) where
    leave-IsRunning :
        (s : Threads T W)
        → s.phase ≡ at_empty
        → is_empty zero_item capacity s.system.ring ≡ true
        → IsRunning s
        → IsRunning (record s { phase = finished })
    leave-IsRunning s here_lem none_left v = record {
      reached = v.reached;
      sent = v.sent;
      worked = v.worked;
      quiet = v.quiet;
      drained = λ e. absurd (ground (arith, e));
      ended = λ e. (v.drained here_lem, all_out);
    }
      where
        all_out : s.system.popped ≡ s.system.pushed
        all_out =
            let (queued, split, _) =
              Reach-fifo zero_item capacity positive small divides s.system v.reached in
            let even : length s.system.pushed ≡ length s.system.popped =
              ==→eq (length s.system.pushed) (length s.system.popped) (
                sym
                  (Reach-size zero_item capacity positive small divides s.system v.reached
                    zero_item).2
                ∙ none_left) in
            sym (
              split
              ∙ (ap (λ q. s.system.popped ++ q)
                    (no_items queued
                      (omega (arith, even, ap length split, length-append s.system.popped queued)))
                  ∙ append-nil s.system.popped))

    pub ThreadStep-IsRunning :
        {s t : Threads T W} → ThreadStep zero_item capacity work s t → IsRunning s → IsRunning t
    ThreadStep-IsRunning (spin s value rest more idle full) v = v
    ThreadStep-IsRunning (take_message s value rest head more idle room) v =
        take_message-IsRunning s value rest head more idle room v
    ThreadStep-IsRunning (write_message s value head e) v =
        write_message-IsRunning s _ (Step.push_write s.system value head e) refl refl
          (sym (ap in_hand e)) (λ i. loaded_busy head value (sym e ∙ i)) v
    ThreadStep-IsRunning (publish_message s value head e) v =
        publish_message-IsRunning s _ value (Step.push_publish s.system value head e) refl refl refl
          (ap in_hand e) (λ i. written_busy head value (sym e ∙ i)) v
    ThreadStep-IsRunning (signal s none_left idle) v = signal-IsRunning s none_left idle v
    ThreadStep-IsRunning (see_running s p e) v =
        turn-IsRunning s in_body (λ e. absurd (ground (arith, e))) (λ e. ground (arith, e)) v
    ThreadStep-IsRunning (see_done s p e) v =
        turn-IsRunning s at_empty (λ _. e) (λ e. ground (arith, e)) v
    ThreadStep-IsRunning (see_items s p e) v =
        turn-IsRunning s in_body (λ e. absurd (ground (arith, e))) (λ e. ground (arith, e)) v
    ThreadStep-IsRunning (leave s p e) v = leave-IsRunning s p e v
    ThreadStep-IsRunning (find_nothing s p i e) v =
        turn-IsRunning s at_done (λ e. absurd (ground (arith, e))) (λ e. ground (arith, e)) v
    ThreadStep-IsRunning (find_item s tail p i e) v =
        consume-IsRunning s _ (Step.pop_load s.system tail i e) refl refl refl v
    ThreadStep-IsRunning (read_item s tail p e) v =
        consume-IsRunning s _ (Step.pop_read s.system tail e) refl refl refl v
    ThreadStep-IsRunning (process_item s tail value p e) v =
        process_item-IsRunning s _ value (Step.pop_release s.system tail value e) refl refl refl v

    pub Runs-IsRunning :
        {s : Threads T W}
        → Runs zero_item capacity work (launch zero_item capacity work all w) s
        → IsRunning s
    Runs-IsRunning here = launch-IsRunning
    Runs-IsRunning (then_step r step) = ThreadStep-IsRunning step (Runs-IsRunning r)

    -- For a positive capacity below 2^64 that divides it: in every interleaving of the two threads
    -- in which the consumer's loop has ended, every message has been processed exactly once, in the
    -- order of the producer, as one thread alone would have done it, and none is left in the ring.
    pub finished-work_all :
        (s : Threads T W)
        → Runs zero_item capacity work (launch zero_item capacity work all w) s
        → s.phase ≡ finished
        → (s.worker ≡ work_all work w all) × (s.system.popped ≡ all) × (s.todo ≡ [])
    finished-work_all s r e =
        let v = Runs-IsRunning r in
        let (done, out) = v.ended e in
        let (none_left, idle) = v.quiet done in
        let whole : s.system.popped ≡ all =
          out
          ∙ (sym (append-nil s.system.pushed)
              ∙ (ap (λ t. s.system.pushed ++ t) (sym none_left)
                  ∙ (ap (λ p. s.system.pushed ++ (in_hand p ++ s.todo)) (sym idle) ∙ v.sent))) in
        (v.worked ∙ ap (work_all work w) whole, whole, none_left)
