-- ===== src/Spsc.antt =====
-- include/queue/spsc_ring.hpp: the ring with its two 64-bit counters, each operation as the sequence
-- of its atomic accesses, and the whole operations composed of them.
pub mod Step
pub mod Index
pub mod Invariant
pub mod Safety
pub mod Queue
mod Tests
use stock_data_engine.Base.{
  ℕ, ◌+◌, ◌-◌, ◌%◌, ◌^◌, Option, none, some, Bool, true, false, List, get_or, set, replicate, ltb,
  ◌==◌, if◌then◌else◌,
}

pub record SpscRing (T : Type 0) : Type 0 where
  pub storage : List T
  pub head : ℕ
  pub tail : ℕ

abbrev pub word : ℕ
word = 2 ^ 64

-- `head - tail` in 64 bits
abbrev pub distance : ℕ → ℕ → ℕ
distance head tail = (head + word - tail) % word

-- `T{}` is a parameter, and `Capacity` too; `x & mask` is `x % Capacity`, as `Capacity` is a power of
-- two.
module _ {T : Type 0} (zero_item : T) (capacity : ℕ) where
  abbrev pub fresh_ring : SpscRing T
  fresh_ring = record { storage = replicate capacity zero_item; head = 0; tail = 0 }

  -- The loads of `try_push`, and its test: the value of `head` to go on with.
  abbrev pub load_push : SpscRing T → Option ℕ
  load_push r = if ltb (distance r.head r.tail) capacity then some r.head else none

  abbrev pub write_slot : SpscRing T → ℕ → T → SpscRing T
  write_slot r head value = record r { storage = set r.storage (head % capacity) value }

  abbrev pub store_head : SpscRing T → ℕ → SpscRing T
  store_head r head = record r { head = (head + 1) % word }

  -- The loads of `try_pop`, and its test.
  abbrev pub load_pop : SpscRing T → Option ℕ
  load_pop r = if r.tail == r.head then none else some r.tail

  abbrev pub read_slot : SpscRing T → ℕ → T
  read_slot r tail = get_or r.storage (tail % capacity) zero_item

  abbrev pub store_tail : SpscRing T → ℕ → SpscRing T
  store_tail r tail = record r { tail = (tail + 1) % word }

  -- The two overloads of `try_push`, by copy and by move, have one model.
  unfoldable pub try_push : SpscRing T → T → Bool × SpscRing T
  try_push r value = elim (load_push r) [
    | none ↦ (false, r)
    | some head ↦ (true, store_head (write_slot r head value) head)
  ]

  -- `none` is the result false, with `output` left alone.
  unfoldable pub try_pop : SpscRing T → Option T × SpscRing T
  try_pop r = elim (load_pop r) [
    | none ↦ (none, r)
    | some tail ↦ (some (read_slot r tail), store_tail r tail)
  ]

  unfoldable pub is_empty : SpscRing T → Bool
  is_empty r = r.tail == r.head

  unfoldable pub size : SpscRing T → ℕ
  size r = distance r.head r.tail
