-- ===== src/Itch/Sequence.antt =====
-- `SequenceTracker` of include/itch/moldudp64.hpp and src/moldudp64.cpp.
pub mod Gaps
mod Tests
use stock_data_engine.Base.{
  ℕ, ◌+◌, ◌-◌, ◌%◌, ◌^◌, Bool, true, false, not, List, [], ◌∷◌, ltb, ◌==◌, ◌&&◌, replicate,
  if◌then◌else◌,
}
use stock_data_engine.Itch.Mold.{MoldHeader, end_of_session}

pub data SequenceStatus : Type 0 where
  initialized in_order gap rewind new_session : SequenceStatus

pub record SequenceResult : Type 0 where
  pub status : SequenceStatus
  pub expected : ℕ
  pub received : ℕ
  pub missing : ℕ

pub record SequenceTracker : Type 0 where
  pub session : List ℕ
  pub expected : ℕ
  pub initialized : Bool

-- `==` of two `std::array<char, 10>`.
unfoldable pub same_session : List ℕ → List ℕ → Bool
same_session [] [] = true
same_session [] (y ∷ ys) = false
same_session (x ∷ xs) [] = false
same_session (x ∷ xs) (y ∷ ys) = x == y && same_session xs ys

abbrev pub advances : MoldHeader → ℕ
advances h = if end_of_session h then 0 else h.message_count

-- `header.sequence + advances` in 64 bits
abbrev pub packet_end : MoldHeader → ℕ
packet_end h = (h.sequence + advances h) % 2 ^ 64

-- The last part of `observe`: a packet of the session that is tracked.
abbrev same : SequenceTracker → MoldHeader → SequenceResult × SequenceTracker
same t h = (
  record {
    status =
        if ltb t.expected h.sequence
        then gap
        else if ltb h.sequence t.expected
        then rewind
        else in_order;
    expected = t.expected;
    received = h.sequence;
    missing = if ltb t.expected h.sequence then h.sequence - t.expected else 0;
  },
  record t { expected = if ltb t.expected (packet_end h) then packet_end h else t.expected },
)

unfoldable pub observe : SequenceTracker → MoldHeader → SequenceResult × SequenceTracker
observe t h =
    if not t.initialized
    then (
      record {
        status = SequenceStatus.initialized;
        expected = h.sequence;
        received = h.sequence;
        missing = 0;
      },
      record { session = h.session; expected = packet_end h; initialized = true },
    )
    else if not (same_session h.session t.session)
    then (
      record { status = new_session; expected = t.expected; received = h.sequence; missing = 0 },
      record t { session = h.session; expected = packet_end h },
    )
    else same t h

-- The state after `reset` and before the first packet.
unfoldable pub reset : SequenceTracker
reset = record { session = replicate 10 0; expected = 0; initialized = false }
