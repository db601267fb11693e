-- ===== src/Spsc/Invariant.antt =====
-- The invariant of the interleaved producer and consumer of include/queue/spsc_ring.hpp.
use Prim.Native.Nat.{◌∣◌}
use native.Mathlib.Nat.{mod-lt}
use native.Mathlib.Decide.{ℕ_discrete}
use stock_data_engine.Base.{
  ℕ, suc, ◌+◌, ◌%◌, ◌≤◌, ◌<◌, ◌≡◌, refl, sym, ap, ◌∙◌, arith, List, [], ◌∷◌, ◌++◌, length, get_or,
  take, some, length-append, length-set, get_or-set_self, get_or-set_ne, get_or-append_lt,
  get_or-append_length, take-append_le, take-suc, length-replicate,
}
use stock_data_engine.Spsc.{
  word, load_push, load_pop, write_slot, store_head, store_tail, read_slot,
}
use stock_data_engine.Spsc.Step.{
  Producer, Consumer, System, Step, Reach, start, push_refused, push_load, push_write, push_publish,
  pop_refused, pop_load, pop_read, pop_release, here, next,
}
use stock_data_engine.Spsc.Index.{distance-wrapped, slot-wrapped, slots_apart}

module _ {T : Type 0} (zero_item : T) (capacity : ℕ) where
  -- The item in the slot of count `i`.
  abbrev pub item : List T → ℕ → T
  item storage i = get_or storage (i % capacity) zero_item

  -- The producer has loaded `head`, and there is room.
  abbrev pub Writing : List T → List T → ℕ → Type 0
  Writing pushed popped head =
      (head ≡ length pushed % word) × (length pushed < length popped + capacity)

  abbrev pub Reading : List T → List T → ℕ → Type 0
  Reading pushed popped tail = (tail ≡ length popped % word) × (length popped < length pushed)

  abbrev pub ProducerFits : List T → List T → List T → Producer T → Type 0
  ProducerFits storage pushed popped Producer.idle = Unit {0}
  ProducerFits storage pushed popped (Producer.loaded head value) = Writing pushed popped head
  ProducerFits storage pushed popped (Producer.written head value) =
      Writing pushed popped head × (item storage (length pushed) ≡ value)

  abbrev pub ConsumerFits : List T → List T → Consumer T → Type 0
  ConsumerFits pushed popped Consumer.idle = Unit {0}
  ConsumerFits pushed popped (Consumer.loaded tail) = Reading pushed popped tail
  ConsumerFits pushed popped (Consumer.moved tail value) =
      Reading pushed popped tail × (get_or pushed (length popped) zero_item ≡ value)

  pub record IsFifo (s : System T) : Type 0 where
    pub head_is : s.ring.head ≡ length s.pushed % word
    pub tail_is : s.ring.tail ≡ length s.popped % word
    pub ordered : length s.popped ≤ length s.pushed
    pub room : length s.pushed ≤ length s.popped + capacity
    pub slots : length s.ring.storage ≡ capacity
    pub live :
        (i : ℕ)
        → length s.popped ≤ i
        → i < length s.pushed
        → item s.ring.storage i ≡ get_or s.pushed i zero_item
    pub prefix : s.popped ≡ take (length s.popped) s.pushed
    pub producer_fits : ProducerFits s.ring.storage s.pushed s.popped s.producer
    pub consumer_fits : ConsumerFits s.pushed s.popped s.consumer

  module _ (positive : 0 < capacity) (small : capacity < word) (divides : capacity ∣ word) where
    start-IsFifo : IsFifo (start zero_item capacity)
    start-IsFifo = record {
      head_is = refl;
      tail_is = refl;
      ordered = omega arith;
      room = omega arith;
      slots = length-replicate capacity zero_item;
      live = λ i lo hi. absurd (omega arith);
      prefix = refl;
      producer_fits = tt;
      consumer_fits = tt;
    }

    push_load-IsFifo :
        (s : System T) (value : T) (head : ℕ)
        → load_push zero_item capacity s.ring ≡ some head
        → IsFifo s
        → IsFifo (record s { producer = Producer.loaded head value })
    push_load-IsFifo s value head e v = record {
      head_is = v.head_is;
      tail_is = v.tail_is;
      ordered = v.ordered;
      room = v.room;
      slots = v.slots;
      live = v.live;
      prefix = v.prefix;
      producer_fits = ground (
        arith,
        distance-wrapped (length s.pushed) (length s.popped) v.ordered (omega (arith, v.room)),
        v.head_is,
        v.tail_is,
      );
      consumer_fits = v.consumer_fits;
    }

    push_write-IsFifo :
        (s : System T) (value : T) (head : ℕ)
        → s.producer ≡ Producer.loaded head value
        → IsFifo s
        → IsFifo (record s {
          ring = write_slot zero_item capacity s.ring head value;
          producer = Producer.written head value;
        })
    push_write-IsFifo s value head e v = record {
      head_is = v.head_is;
      tail_is = v.tail_is;
      ordered = v.ordered;
      room = v.room;
      slots = length-set s.ring.storage (head % capacity) value ∙ v.slots;
      live = λ i lo hi.
          get_or-set_ne s.ring.storage (head % capacity) (i % capacity) value zero_item (λ q.
            slots_apart capacity i (length s.pushed) hi (omega (arith, writing.1)) (sym q ∙ index))
          ∙ v.live i lo hi;
      prefix = v.prefix;
      producer_fits = (
        writing,
        rw (← index) (get_or-set_self s.ring.storage (head % capacity) value zero_item inside),
      );
      consumer_fits = v.consumer_fits;
    }
      where
        writing : Writing s.pushed s.popped head
        writing = rw e at v.producer_fits

        index : head % capacity ≡ length s.pushed % capacity
        index = ap (λ k. k % capacity) writing.0 ∙ slot-wrapped capacity (length s.pushed) divides

        inside : head % capacity < length s.ring.storage
        inside = rw v.slots (mod-lt head positive)

    consumer_grows :
        (pushed popped : List T) (value : T) (c : Consumer T)
        → ConsumerFits pushed popped c
        → ConsumerFits (pushed ++ value ∷ []) popped c
    consumer_grows pushed popped value Consumer.idle f = tt
    consumer_grows pushed popped value (Consumer.loaded tail) f =
        omega (arith, length-append pushed (value ∷ []), f.0, f.1)
    consumer_grows pushed popped value (Consumer.moved tail item) f = (
      omega (arith, length-append pushed (value ∷ []), f.0.0, f.0.1),
      get_or-append_lt pushed (value ∷ []) (length popped) zero_item f.0.1 ∙ f.1,
    )

    push_publish-IsFifo :
        (s : System T) (value : T) (head : ℕ)
        → s.producer ≡ Producer.written head value
        → IsFifo s
        → IsFifo (record s {
          ring = store_head zero_item capacity s.ring head;
          producer = Producer.idle;
          pushed = s.pushed ++ value ∷ [];
        })
    push_publish-IsFifo s value head e v = record {
      head_is = omega (arith, grown, fits.0.0);
      tail_is = v.tail_is;
      ordered = omega (arith, grown, v.ordered);
      room = omega (arith, grown, fits.0.1);
      slots = v.slots;
      live = λ i lo hi. elim (ℕ_discrete i (length s.pushed)) [
        | yes q ↦
            ap (item s.ring.storage) q
            ∙ (fits.1 ∙ sym (get_or-append_length s.pushed value zero_item i q))
        | no q ↦
            v.live i lo (omega (arith, grown))
            ∙ sym (get_or-append_lt s.pushed (value ∷ []) i zero_item (omega (arith, grown)))
      ];
      prefix = v.prefix ∙ sym (take-append_le (length s.popped) s.pushed (value ∷ []) v.ordered);
      producer_fits = tt;
      consumer_fits = consumer_grows s.pushed s.popped value s.consumer v.consumer_fits;
    }
      where
        fits : ProducerFits s.ring.storage s.pushed s.popped (Producer.written head value)
        fits = rw e at v.producer_fits

        grown : length (s.pushed ++ value ∷ []) ≡ length s.pushed + 1
        grown = length-append s.pushed (value ∷ [])

    pop_load-IsFifo :
        (s : System T) (tail : ℕ)
        → load_pop zero_item capacity s.ring ≡ some tail
        → IsFifo s
        → IsFifo (record s { consumer = Consumer.loaded tail })
    pop_load-IsFifo s tail e v = record {
      head_is = v.head_is;
      tail_is = v.tail_is;
      ordered = v.ordered;
      room = v.room;
      slots = v.slots;
      live = v.live;
      prefix = v.prefix;
      producer_fits = v.producer_fits;
      consumer_fits = ground (arith, v.head_is, v.tail_is, v.ordered);
    }

    pop_read-IsFifo :
        (s : System T) (tail : ℕ)
        → s.consumer ≡ Consumer.loaded tail
        → IsFifo s
        → IsFifo
            (record s { consumer = Consumer.moved tail (read_slot zero_item capacity s.ring tail) })
    pop_read-IsFifo s tail e v = record {
      head_is = v.head_is;
      tail_is = v.tail_is;
      ordered = v.ordered;
      room = v.room;
      slots = v.slots;
      live = v.live;
      prefix = v.prefix;
      producer_fits = v.producer_fits;
      consumer_fits = (
        reading,
        sym (v.live (length s.popped) (omega arith) reading.1)
            ∙ ap (λ k. get_or s.ring.storage k zero_item) (sym index),
      );
    }
      where
        reading : Reading s.pushed s.popped tail
        reading = rw e at v.consumer_fits

        index : tail % capacity ≡ length s.popped % capacity
        index = ap (λ k. k % capacity) reading.0 ∙ slot-wrapped capacity (length s.popped) divides

    -- Releasing a slot leaves the producer's room.
    producer_drains :
        (storage pushed popped : List T) (value : T) (p : Producer T)
        → ProducerFits storage pushed popped p
        → ProducerFits storage pushed (popped ++ value ∷ []) p
    producer_drains storage pushed popped value Producer.idle f = tt
    producer_drains storage pushed popped value (Producer.loaded head item) f =
        omega (arith, length-append popped (value ∷ []), f.0, f.1)
    producer_drains storage pushed popped value (Producer.written head item) f =
        (omega (arith, length-append popped (value ∷ []), f.0.0, f.0.1), f.1)

    pop_release-IsFifo :
        (s : System T) (tail : ℕ) (value : T)
        → s.consumer ≡ Consumer.moved tail value
        → IsFifo s
        → IsFifo (record s {
          ring = store_tail zero_item capacity s.ring tail;
          consumer = Consumer.idle;
          popped = s.popped ++ value ∷ [];
        })
    pop_release-IsFifo s tail value e v = record {
      head_is = v.head_is;
      tail_is = omega (arith, grown, fits.0.0);
      ordered = omega (arith, grown, fits.0.1);
      room = omega (arith, grown, v.room);
      slots = v.slots;
      live = λ i lo hi. v.live i (omega (arith, grown)) hi;
      prefix =
          rw (grown, take-suc (length s.popped) s.pushed zero_item fits.0.1, fits.1)
            (ap (λ xs. xs ++ value ∷ []) v.prefix);
      producer_fits =
          producer_drains s.ring.storage s.pushed s.popped value s.producer v.producer_fits;
      consumer_fits = tt;
    }
      where
        fits : ConsumerFits s.pushed s.popped (Consumer.moved tail value)
        fits = rw e at v.consumer_fits

        grown : length (s.popped ++ value ∷ []) ≡ suc (length s.popped)
        grown = omega (arith, length-append s.popped (value ∷ []))

    pub Step-IsFifo : {s t : System T} → Step zero_item capacity s t → IsFifo s → IsFifo t
    Step-IsFifo (push_refused s p e) v = v
    Step-IsFifo (push_load s value head p e) v = push_load-IsFifo s value head e v
    Step-IsFifo (push_write s value head e) v = push_write-IsFifo s value head e v
    Step-IsFifo (push_publish s value head e) v = push_publish-IsFifo s value head e v
    Step-IsFifo (pop_refused s p e) v = v
    Step-IsFifo (pop_load s tail p e) v = pop_load-IsFifo s tail e v
    Step-IsFifo (pop_read s tail e) v = pop_read-IsFifo s tail e v
    Step-IsFifo (pop_release s tail value e) v = pop_release-IsFifo s tail value e v

    -- The invariant holds in every state that the two threads can reach.
    pub Reach-IsFifo :
        {t : System T} → Reach zero_item capacity (start zero_item capacity) t → IsFifo t
    Reach-IsFifo here = start-IsFifo
    Reach-IsFifo (next r st) = Step-IsFifo st (Reach-IsFifo r)
