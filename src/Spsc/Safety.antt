-- ===== src/Spsc/Safety.antt =====
-- What the invariant gives the users of include/queue/spsc_ring.hpp: order, no loss, no race on a
-- slot, and the results of the whole operations.
use Prim.Native.Nat.{◌∣◌}
use native.Mathlib.Decide.{ℕ_discrete}
use stock_data_engine.Base.{
  eq→==, ne→==, Option-cases, inl, inr, ℕ, ◌+◌, ◌-◌, ◌%◌, ◌≤◌, ◌<◌, ◌≡◌, ◌≢◌, refl, sym, ap, ◌∙◌,
  arith, List, [], ◌∷◌, ◌++◌, length, get_or, drop, some, none, length-drop, take-append-drop, ltb,
  ◌==◌, if◌then◌else◌,
}
use stock_data_engine.Spsc.{word, distance, load_push, read_slot, try_push, try_pop, is_empty, size}
use stock_data_engine.Spsc.Step.{
  Producer, Consumer, System, Reach, start, push_load, push_write, push_publish, next,
}
use stock_data_engine.Spsc.Index.{distance-wrapped, wrapped-eq, slot-wrapped, slots_apart}
use stock_data_engine.Spsc.Invariant.{IsFifo, Reach-IsFifo, Writing, Reading}

module _ {T : Type 0} (zero_item : T) (capacity : ℕ) (positive : 0 < capacity)
    (small : capacity < word) (divides : capacity ∣ word) where
  -- For a positive capacity below 2^64 that divides it: in every interleaving, what the consumer
  -- has received is the beginning of what the producer has published, in the same order, and at
  -- most `capacity` items are in between.
  pub Reach-fifo :
      (s : System T)
      → Reach zero_item capacity (start zero_item capacity) s
      → (queued : List T) × (s.pushed ≡ s.popped ++ queued) × (length queued ≤ capacity)
  Reach-fifo s r =
      let v : IsFifo zero_item capacity s =
        Reach-IsFifo zero_item capacity positive small divides r in
      (
        drop (length s.popped) s.pushed,
        sym (
            ap (λ xs. xs ++ drop (length s.popped) s.pushed) v.prefix
            ∙ take-append-drop (length s.popped) s.pushed),
        omega (arith, length-drop (length s.popped) s.pushed, v.room),
      )

  -- For a positive capacity below 2^64 that divides it: in every interleaving, while the producer
  -- is about to write a slot and the consumer about to read one, these are different slots.
  pub Reach-race_free :
      (s : System T) (head tail : ℕ) (value : T)
      → Reach zero_item capacity (start zero_item capacity) s
      → s.producer ≡ Producer.loaded head value
      → s.consumer ≡ Consumer.loaded tail
      → head % capacity ≢ tail % capacity
  Reach-race_free s head tail value r p c e =
      let v : IsFifo zero_item capacity s =
        Reach-IsFifo zero_item capacity positive small divides r in
      let writing : Writing zero_item capacity s.pushed s.popped head = rw p at v.producer_fits in
      let reading : Reading zero_item capacity s.pushed s.popped tail = rw c at v.consumer_fits in
      slots_apart capacity (length s.popped) (length s.pushed) reading.1 writing.1 (
        sym (slot-wrapped capacity (length s.popped) divides)
        ∙ (ap (λ k. k % capacity) (sym reading.0)
            ∙ (sym e
                ∙ (ap (λ k. k % capacity) writing.0
                    ∙ slot-wrapped capacity (length s.pushed) divides))))

  module _ (s : System T) (r : Reach zero_item capacity (start zero_item capacity) s) where
    fifo : IsFifo zero_item capacity s
    fifo = Reach-IsFifo zero_item capacity positive small divides r

    true_size : distance s.ring.head s.ring.tail ≡ length s.pushed - length s.popped
    true_size =
        rw (fifo.head_is, fifo.tail_is)
          (distance-wrapped (length s.pushed) (length s.popped) fifo.ordered
            (omega (arith, fifo.room)))

    same_counters : (s.ring.tail == s.ring.head) ≡ (length s.pushed == length s.popped)
    same_counters = elim (ℕ_discrete (length s.pushed) (length s.popped)) [
      | yes q ↦
          eq→== s.ring.tail s.ring.head
            (fifo.tail_is ∙ (ap (λ k. k % word) (sym q) ∙ sym fifo.head_is))
          ∙ sym (eq→== (length s.pushed) (length s.popped) q)
      | no q ↦
          ne→== s.ring.tail s.ring.head (λ e. q (
            wrapped-eq (length s.pushed) (length s.popped) fifo.ordered (omega (arith, fifo.room))
              (sym fifo.head_is ∙ (sym e ∙ fifo.tail_is))))
          ∙ sym (ne→== (length s.pushed) (length s.popped) q)
    ]

    -- For a positive capacity below 2^64 that divides it: in a reachable state `try_push` succeeds
    -- exactly when fewer than `capacity` items are queued, `size` is the number of queued items,
    -- and `empty` tells whether there is none.
    pub Reach-size :
        (value : T)
        → ((try_push zero_item capacity s.ring value).0
            ≡ ltb (length s.pushed) (length s.popped + capacity))
          × (length s.popped + size zero_item capacity s.ring ≡ length s.pushed)
          × (is_empty zero_item capacity s.ring ≡ (length s.pushed == length s.popped))
    unfolding try_push is_empty size
    Reach-size value = (
      ground (arith, true_size, fifo.ordered),
      omega (arith, true_size, fifo.ordered),
      same_counters,
    )

    oldest :
        length s.popped < length s.pushed
        → read_slot zero_item capacity s.ring s.ring.tail
          ≡ get_or s.pushed (length s.popped) zero_item
    oldest h =
        ap (λ k. get_or s.ring.storage k zero_item)
          (ap (λ k. k % capacity) fifo.tail_is ∙ slot-wrapped capacity (length s.popped) divides)
        ∙ fifo.live (length s.popped) (omega arith) h

    -- For a positive capacity below 2^64 that divides it: in a reachable state `try_pop` gives the
    -- oldest queued item, or nothing when none is queued.
    pub Reach-try_pop : (try_pop zero_item capacity s.ring).0 ≡ (
        if length s.pushed == length s.popped
        then none
        else some (get_or s.pushed (length s.popped) zero_item))
    unfolding try_pop
    Reach-try_pop = elim (ℕ_discrete (length s.pushed) (length s.popped)) [
      | yes q ↦ ground (arith, same_counters, eq→== (length s.pushed) (length s.popped) q)
      | no q ↦ ground (
        arith,
        same_counters,
        ne→== (length s.pushed) (length s.popped) q,
        oldest (omega (arith, fifo.ordered)),
      )
    ]

    -- For a positive capacity below 2^64 that divides it: a whole `try_push` in a reachable state
    -- while the producer is idle is a run of its steps: it leaves a reachable state with the ring
    -- that it returns, the item published if it returns true and none if not.
    pub Reach-try_push :
        (value : T)
        → s.producer ≡ Producer.idle
        → Reach zero_item capacity (start zero_item capacity) (record s {
          ring = (try_push zero_item capacity s.ring value).1;
          pushed =
              if (try_push zero_item capacity s.ring value).0
              then s.pushed ++ value ∷ []
              else s.pushed;
        })
    unfolding try_push
    Reach-try_push value idle = elim (Option-cases (load_push zero_item capacity s.ring)) [
      | inl full ↦ rw (full, try_push) r
      | inr (head, room) ↦
          rw (room, try_push)
            (rw idle (
              next (next (next r (push_load s value head idle room)) (push_write _ value head refl))
                (push_publish _ value head refl)))
    ]
