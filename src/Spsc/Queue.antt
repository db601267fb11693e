-- ===== src/Spsc/Queue.antt =====
-- A program of whole calls on the ring of include/queue/spsc_ring.hpp, against a queue that is a list.
use Prim.Native.Nat.{◌∣◌}
use stock_data_engine.Base.{
  ℕ, ◌+◌, ◌<◌, ◌≡◌, refl, ap₂, ◌∙◌, arith, Bool, true, false, Bool-cases, Option, Option-cases,
  some, none, inl, inr, List, [], ◌∷◌, ◌++◌, length, get_or, ltb, ◌==◌, if◌then◌else◌,
  length-append, append_assoc,
}
use stock_data_engine.Spsc.{
  SpscRing, word, fresh_ring, load_pop, read_slot, store_tail, try_push, try_pop, is_empty, size,
}
use stock_data_engine.Spsc.Step.{
  Producer, Consumer, Reach, start, pop_load, pop_read, pop_release, here, next,
}
use stock_data_engine.Spsc.Safety.{Reach-size, Reach-try_pop, Reach-try_push}

pub data Call (T : Type 0) : Type 0 where
  push : T → Call T
  pop ask_size ask_empty : Call T

pub data Reply (T : Type 0) : Type 0 where
  pushed : Bool → Reply T
  popped : Option T → Reply T
  has_size : ℕ → Reply T
  has_none : Bool → Reply T

module _ {T : Type 0} (zero_item : T) (capacity : ℕ) where
  -- What the calls return, one after another.
  abbrev pub ring_replies : SpscRing T → List (Call T) → List (Reply T)
  ring_replies r [] = []
  ring_replies r (push value ∷ calls) =
      pushed (try_push zero_item capacity r value).0
      ∷ ring_replies (try_push zero_item capacity r value).1 calls
  ring_replies r (pop ∷ calls) =
      popped (try_pop zero_item capacity r).0 ∷ ring_replies (try_pop zero_item capacity r).1 calls
  ring_replies r (ask_size ∷ calls) = has_size (size zero_item capacity r) ∷ ring_replies r calls
  ring_replies r (ask_empty ∷ calls) =
      has_none (is_empty zero_item capacity r) ∷ ring_replies r calls

  -- The same of a list of at most `capacity` items.
  abbrev pub queue_replies : List T → List (Call T) → List (Reply T)
  queue_replies q [] = []
  queue_replies q (push value ∷ calls) =
      if ltb (length q) capacity
      then pushed true ∷ queue_replies (q ++ value ∷ []) calls
      else pushed false ∷ queue_replies q calls
  queue_replies [] (pop ∷ calls) = popped none ∷ queue_replies [] calls
  queue_replies (x ∷ q) (pop ∷ calls) = popped (some x) ∷ queue_replies q calls
  queue_replies q (ask_size ∷ calls) = has_size (length q) ∷ queue_replies q calls
  queue_replies q (ask_empty ∷ calls) = has_none (length q == 0) ∷ queue_replies q calls

  abbrev first : List T → Option T
  first [] = none
  first (x ∷ q) = some x

  first_at :
      (before q : List T)
      → (if length (before ++ q) == length before
          then none
          else some (get_or (before ++ q) (length before) zero_item))
        ≡ first q
  first_at [] [] = refl
  first_at [] (x ∷ q) = ground arith
  first_at (y ∷ before) q = ground (arith, first_at before q)

  -- The ring stands between calls, after `before` was published and released, and queues `q`.
  record Queues (before q : List T) (r : SpscRing T) : Type 0 where
    reached : Reach zero_item capacity (start zero_item capacity) (record {
      ring = r;
      producer = Producer.idle;
      consumer = Consumer.idle;
      pushed = before ++ q;
      popped = before;
    })

  try_pop_refused :
      (r : SpscRing T)
      → load_pop zero_item capacity r ≡ none
      → try_pop zero_item capacity r ≡ (none, r)
  unfolding try_pop
  try_pop_refused r e = rw (e, try_pop) refl

  try_pop_taken :
      (r : SpscRing T) (tail : ℕ)
      → load_pop zero_item capacity r ≡ some tail
      → try_pop zero_item capacity r
        ≡ (some (read_slot zero_item capacity r tail), store_tail zero_item capacity r tail)
  unfolding try_pop
  try_pop_taken r tail e = rw (e, try_pop) refl

  module _ (positive : 0 < capacity) (small : capacity < word) (divides : capacity ∣ word) where
    module _ (before q : List T) (r : SpscRing T) (v : Queues before q r) where
      counted : length (before ++ q) ≡ length before + length q
      counted = length-append before q

      size_is : size zero_item capacity r ≡ length q
      size_is = omega (
        arith,
        counted,
        (Reach-size zero_item capacity positive small divides _ v.reached zero_item).1,
      )

      empty_is : is_empty zero_item capacity r ≡ (length q == 0)
      empty_is =
          (Reach-size zero_item capacity positive small divides _ v.reached zero_item).2
          ∙ ground (arith, counted)

      push_is : (value : T) → (try_push zero_item capacity r value).0 ≡ ltb (length q) capacity
      push_is value =
          (Reach-size zero_item capacity positive small divides _ v.reached value).0
          ∙ ground (arith, counted)

      push_list :
          (value : T) (b : Bool)
          → (if b then (before ++ q) ++ value ∷ [] else before ++ q)
            ≡ before ++ (if b then q ++ value ∷ [] else q)
      push_list value true = append_assoc before q (value ∷ [])
      push_list value false = refl

      -- The state after the call of try_push with this result.
      pushed_at :
          (value : T) (b : Bool)
          → (try_push zero_item capacity r value).0 ≡ b
          → Reach zero_item capacity (start zero_item capacity) (record {
            ring = (try_push zero_item capacity r value).1;
            producer = Producer.idle;
            consumer = Consumer.idle;
            pushed = before ++ (if b then q ++ value ∷ [] else q);
            popped = before;
          })
      pushed_at value b e =
          let run : Reach zero_item capacity (start zero_item capacity) (record {
            ring = (try_push zero_item capacity r value).1;
            producer = Producer.idle;
            consumer = Consumer.idle;
            pushed =
                if (try_push zero_item capacity r value).0
                then (before ++ q) ++ value ∷ []
                else before ++ q;
            popped = before;
          }) =
            Reach-try_push zero_item capacity positive small divides _ v.reached value refl in
          rw (← push_list value b, ← e) run

      try_push-Queues :
          (value : T)
          → Queues before
              (if ltb (length q) capacity then q ++ value ∷ [] else q)
              (try_push zero_item capacity r value).1
      try_push-Queues value = record {
        reached = elim (Bool-cases (ltb (length q) capacity)) [
          | inl room ↦ rw room (pushed_at value true (push_is value ∙ room))
          | inr full ↦ rw full (pushed_at value false (push_is value ∙ full))
        ];
      }

      pop_is : (try_pop zero_item capacity r).0 ≡ first q
      pop_is =
          Reach-try_pop zero_item capacity positive small divides _ v.reached ∙ first_at before q

    try_pop_none-Queues :
        (before : List T) (r : SpscRing T)
        → Queues before [] r
        → Queues before [] (try_pop zero_item capacity r).1
    try_pop_none-Queues before r v = elim (Option-cases (load_pop zero_item capacity r)) [
      | inl empty ↦ rw (try_pop_refused r empty) v
      | inr (tail, e) ↦ cc (pop_is before [] r v, try_pop_taken r tail e)
    ]

    try_pop-Queues :
        (before : List T) (x : T) (q : List T) (r : SpscRing T)
        → Queues before (x ∷ q) r
        → Queues (before ++ x ∷ []) q (try_pop zero_item capacity r).1
    try_pop-Queues before x q r v = elim (Option-cases (load_pop zero_item capacity r)) [
      | inl empty ↦ cc (pop_is before (x ∷ q) r v, try_pop_refused r empty)
      | inr (tail, e) ↦
          let item : read_slot zero_item capacity r tail ≡ x =
            cc (pop_is before (x ∷ q) r v, try_pop_taken r tail e) in
          let run =
            next (next (next v.reached (pop_load _ tail refl e)) (pop_read _ tail refl))
              (pop_release _ tail (read_slot zero_item capacity r tail) refl) in
          rw (try_pop_taken r tail e)
            (record { reached = rw (append_assoc before (x ∷ []) q) (rw item at run) })
    ]

    ring_replies-Queues :
        (before q : List T) (r : SpscRing T) (calls : List (Call T))
        → Queues before q r
        → ring_replies r calls ≡ queue_replies q calls
    ring_replies-Queues before q r [] v = refl
    ring_replies-Queues before q r (push value ∷ calls) v =
        let rest =
          ring_replies-Queues before (if ltb (length q) capacity then q ++ value ∷ [] else q)
            (try_push zero_item capacity r value).1 calls (try_push-Queues before q r v value) in
        elim (Bool-cases (ltb (length q) capacity)) [
          | inl room ↦
              rw room
                (ap₂ (λ b rs. pushed b ∷ rs) (push_is before q r v value ∙ room) (rw room at rest))
          | inr full ↦
              rw full
                (ap₂ (λ b rs. pushed b ∷ rs) (push_is before q r v value ∙ full) (rw full at rest))
        ]
    ring_replies-Queues before [] r (pop ∷ calls) v =
        ap₂ (λ o rs. popped o ∷ rs) (pop_is before [] r v)
          (ring_replies-Queues before [] (try_pop zero_item capacity r).1 calls
            (try_pop_none-Queues before r v))
    ring_replies-Queues before (x ∷ q) r (pop ∷ calls) v =
        ap₂ (λ o rs. popped o ∷ rs) (pop_is before (x ∷ q) r v)
          (ring_replies-Queues (before ++ x ∷ []) q (try_pop zero_item capacity r).1 calls
            (try_pop-Queues before x q r v))
    ring_replies-Queues before q r (ask_size ∷ calls) v =
        ap₂ (λ n rs. has_size n ∷ rs) (size_is before q r v)
          (ring_replies-Queues before q r calls v)
    ring_replies-Queues before q r (ask_empty ∷ calls) v =
        ap₂ (λ b rs. has_none b ∷ rs) (empty_is before q r v)
          (ring_replies-Queues before q r calls v)

    -- For a positive capacity below 2^64 that divides it: any program of whole calls of try_push,
    -- try_pop, size and empty, on one thread and of any length, gets from a new ring what it would
    -- get from an empty list to which at most `capacity` items are appended and from whose front
    -- they are taken.
    pub ring_replies-queue_replies :
        (calls : List (Call T))
        → ring_replies (fresh_ring zero_item capacity) calls ≡ queue_replies [] calls
    ring_replies-queue_replies calls =
        ring_replies-Queues [] [] (fresh_ring zero_item capacity) calls (record { reached = here })
