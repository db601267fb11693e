-- ===== src/Spsc/Tests.antt =====
-- Runs of the ring of include/queue/spsc_ring.hpp at capacity 2, and the results at these runs.
use Prim.Native.Nat.{◌∣◌}
use native.Mathlib.Nat.{dvd_of_mod-eq-zero}
use stock_data_engine.Base.{
  ℕ, ◌%◌, ◌≤◌, ◌<◌, ◌+◌, ◌≡◌, ◌≢◌, refl, some, true, false, List, [], ◌∷◌, ◌++◌, length, arith, ltb,
  ◌==◌,
}
use stock_data_engine.Spsc.{word, fresh_ring, try_push, try_pop, size, is_empty}
use stock_data_engine.Spsc.Step.{
  Producer, Consumer, System, Reach, start, push_load, push_write, push_publish, pop_load, here,
  next,
}
use stock_data_engine.Spsc.Safety.{Reach-fifo, Reach-race_free, Reach-size, Reach-try_pop}
use stock_data_engine.Spsc.Queue.{
  Call, push, pop, ask_size, ask_empty, Reply, pushed, popped, has_size, has_none, ring_replies,
  ring_replies-queue_replies,
}

abbrev one_queued : System ℕ
one_queued = record {
  ring = record { storage = 7 ∷ 0 ∷ []; head = 1; tail = 0 };
  producer = Producer.idle;
  consumer = Consumer.idle;
  pushed = 7 ∷ [];
  popped = [];
}

one_queued-Reach : Reach 0 2 (start 0 2) one_queued
one_queued-Reach =
    next (next (next here (push_load (start 0 2) 7 0 refl refl)) (push_write _ 7 0 refl))
      (push_publish _ 7 0 refl)

-- Both threads are inside a call.
abbrev both_inside : System ℕ
both_inside = record one_queued { producer = Producer.loaded 1 8; consumer = Consumer.loaded 0 }

both_inside-Reach : Reach 0 2 (start 0 2) both_inside
both_inside-Reach =
    next (next one_queued-Reach (push_load _ 8 1 refl refl)) (pop_load _ 0 refl refl)

two_small : 2 < word
two_small = omega arith

two_divides : 2 ∣ word
two_divides = dvd_of_mod-eq-zero 2 refl

Reach-fifo_example : (queued : List ℕ) × (7 ∷ [] ≡ [] ++ queued) × (length queued ≤ 2)
Reach-fifo_example = Reach-fifo 0 2 (omega arith) two_small two_divides one_queued one_queued-Reach

Reach-race_free_example : 1 % 2 ≢ 0 % 2
Reach-race_free_example =
    Reach-race_free 0 2 (omega arith) two_small two_divides both_inside 1 0 8 both_inside-Reach refl
      refl

Reach-size_example :
    ((try_push 0 2 one_queued.ring 8).0 ≡ ltb 1 2)
    × (0 + size 0 2 one_queued.ring ≡ 1)
    × (is_empty 0 2 one_queued.ring ≡ (1 == 0))
Reach-size_example =
    Reach-size 0 2 (omega arith) two_small two_divides one_queued one_queued-Reach 8

Reach-try_pop_example : (try_pop 0 2 one_queued.ring).0 ≡ some 7
Reach-try_pop_example =
    Reach-try_pop 0 2 (omega arith) two_small two_divides one_queued one_queued-Reach

-- The third item does not fit, until the first is taken.
abbrev calls : List (Call ℕ)
calls = push 7 ∷ push 8 ∷ push 9 ∷ ask_size ∷ pop ∷ push 9 ∷ pop ∷ ask_empty ∷ []

abbrev replies : List (Reply ℕ)
replies =
    pushed true
    ∷ pushed true
    ∷ pushed false
    ∷ has_size 2
    ∷ popped (some 7)
    ∷ pushed true
    ∷ popped (some 8)
    ∷ has_none false
    ∷ []

ring_replies-queue_replies_example : ring_replies 0 2 (fresh_ring 0 2) calls ≡ replies
ring_replies-queue_replies_example =
    ring_replies-queue_replies 0 2 (omega arith) two_small two_divides calls
