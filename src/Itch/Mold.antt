-- ===== src/Itch/Mold.antt =====
-- include/itch/moldudp64.hpp: the MoldUDP64 packet header and `MoldDecoder::decode`. What is left of
-- the packet from `position` on is a list. The two callables act on a state of the caller's.
pub mod Frames
pub mod Dispatch
pub mod Packet
pub mod Callback
mod Tests
use stock_data_engine.Base.{
  ℕ, zero, suc, ◌+◌, ◌*◌, ◌%◌, ◌^◌, Bool, true, false, List, [], ◌∷◌, length, take, drop, get_or,
  replicate, ltb, ◌==◌, not, ◌||◌, if◌then◌else◌,
}

pub record MoldHeader : Type 0 where
  pub session : List ℕ
  pub sequence : ℕ
  pub message_count : ℕ

abbrev pub heartbeat : MoldHeader → Bool
heartbeat h = h.message_count == 0

abbrev pub end_of_session : MoldHeader → Bool
end_of_session h = h.message_count == 0xffff

pub data MoldError : Type 0 where
  none header_too_short invalid_control_packet truncated_message_length : MoldError
  truncated_message trailing_bytes : MoldError

pub record MoldResult : Type 0 where
  pub error : MoldError
  pub header : MoldHeader
  pub messages_decoded : ℕ

abbrev pub header_size : ℕ
header_size = 20

unfoldable pub read_u16 : List ℕ → ℕ
read_u16 bs = get_or bs 0 0 * 256 + get_or bs 1 0

-- `value = (value << 8) | byte`, `n` times, in a 64-bit word.
unfoldable pub read_be : ℕ → ℕ → List ℕ → ℕ
read_be zero value bs = value
read_be (suc n) value [] = value
read_be (suc n) value (b ∷ bs) = read_be n ((value * 256) % 2 ^ 64 + b) bs

unfoldable pub read_u64 : List ℕ → ℕ
unfolding read_be
read_u64 bs = read_be 8 0 bs

abbrev pub empty_header : MoldHeader
empty_header = record { session = replicate 10 0; sequence = 0; message_count = 0 }

unfoldable pub read_header : List ℕ → MoldHeader
unfolding read_u16 read_u64
read_header packet = record {
  session = take 10 packet;
  sequence = read_u64 (drop 10 packet);
  message_count = read_u16 (drop 18 packet);
}

-- The first loop, with `n` messages to go: the error that it meets, or `none`.
unfoldable pub validate : ℕ → List ℕ → MoldError
validate zero rest = if length rest == 0 then MoldError.none else trailing_bytes
validate (suc n) rest =
    let more = validate n (drop (read_u16 rest) (drop 2 rest)) in
    if ltb (length rest) 2
    then truncated_message_length
    else if ltb (length (drop 2 rest)) (read_u16 rest)
    then truncated_message
    else more

abbrev pub is_none : MoldError → Bool
is_none none = true
is_none _ = false

-- The result before the loops: `error`, and nothing decoded.
abbrev pub stopped : MoldError → MoldHeader → MoldResult
stopped e h = record { error = e; header = h; messages_decoded = 0 }

module _ {S : Type 0} (callback : S → List ℕ → ℕ → S) (gate : S → MoldHeader → Bool × S) where
  -- The second loop, from message `index` on: each message goes to the callback with its sequence
  -- number. The result's number is `messages_decoded`, which runs with `index`.
  unfoldable pub dispatch : ℕ → List ℕ → ℕ → ℕ → S → ℕ × S
  dispatch zero rest sequence index s = (index, s)
  dispatch (suc n) rest sequence index s =
      dispatch n (drop (read_u16 rest) (drop 2 rest)) sequence ((index + 1) % 2 ^ 16)
        (callback s (take (read_u16 rest) (drop 2 rest)) ((sequence + index) % 2 ^ 64))

  -- A heartbeat or end-of-session packet.
  abbrev control : List ℕ → MoldHeader → S → MoldResult × S
  control packet h s =
      if length packet == header_size
      then (stopped none h, (gate s h).1)
      else (stopped invalid_control_packet h, s)

  abbrev deliver : List ℕ → MoldHeader → S → MoldResult × S
  deliver rest h s =
      let (open_gate, s') = gate s h in
      let (decoded, s'') = dispatch h.message_count rest h.sequence 0 s' in
      if open_gate
      then (record { error = none; header = h; messages_decoded = decoded }, s'')
      else (stopped none h, s')

  abbrev messages : List ℕ → MoldHeader → S → MoldResult × S
  messages rest h s =
      let e = validate h.message_count rest in
      if is_none e then deliver rest h s else (stopped e h, s)

  unfoldable pub decode : List ℕ → S → MoldResult × S
  decode packet s =
      let h = read_header packet in
      if ltb (length packet) header_size
      then (stopped header_too_short empty_header, s)
      else if heartbeat h || end_of_session h
      then control packet h s
      else messages (drop header_size packet) h s
