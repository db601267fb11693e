-- ===== src/Spsc/Index.antt =====
-- Arithmetic of the counters of include/queue/spsc_ring.hpp: counts that never wrap stand behind the
-- 64-bit counters, and slots of live items do not meet.
use Prim.Native.Nat.{◌∣◌}
use native.Mathlib.Nat.{mod-mod_of_dvd, div-add-mod}
use stock_data_engine.Base.{ℕ, ◌+◌, ◌-◌, ◌%◌, ◌≤◌, ◌<◌, ◌≡◌, ◌≢◌, arith}
use stock_data_engine.Spsc.{word, distance}

-- The difference of the wrapped counters is the true one, while that is less than 2 ^ 64.
pub distance-wrapped : (h t : ℕ) → t ≤ h → h < t + word → distance (h % word) (t % word) ≡ h - t
distance-wrapped h t le lt = omega arith

pub wrapped-eq : (h t : ℕ) → t ≤ h → h < t + word → h % word ≡ t % word → h ≡ t
wrapped-eq h t le lt e = omega arith

pub wrapped-suc : (h : ℕ) → (h % word + 1) % word ≡ (h + 1) % word
wrapped-suc h = omega arith

-- A slot's index is that of the true count.
pub slot-wrapped : (capacity h : ℕ) → capacity ∣ word → h % word % capacity ≡ h % capacity
slot-wrapped capacity h d = mod-mod_of_dvd capacity h d

-- Two counts less than `capacity` apart have different slots.
pub slots_apart : (capacity i j : ℕ) → i < j → j < i + capacity → i % capacity ≢ j % capacity
slots_apart capacity i j lt near e = grind (arith, div-add-mod i capacity, div-add-mod j capacity)
