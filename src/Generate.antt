-- ===== src/Generate.antt =====
-- tools/generate_feed.cpp: the class `Writer` with its buffer up to `position_`, the five messages, and
-- the loop of `main`, which writes to a list of bytes. The arguments are parsed, and the file is open.
pub mod Messages
pub mod Decoded
mod Tests
use stock_data_engine.Base.{
  ℕ, zero, suc, ◌+◌, ◌-◌, ◌*◌, ◌/◌, ◌%◌, ◌^◌, Bool, true, false, Option, none, some, List, [], ◌∷◌,
  ◌++◌, length, ltb, ◌==◌, ◌||◌, not, if◌then◌else◌,
}
use stock_data_engine.Itch.Messages.{Side, buy, sell}

abbrev pub put_u8 : ℕ → List ℕ → List ℕ
put_u8 value buffer = buffer ++ value % 256 ∷ []

abbrev pub put_u16 : ℕ → List ℕ → List ℕ
put_u16 value buffer = put_u8 value (put_u8 (value / 2 ^ 8) buffer)

abbrev pub put_u32 : ℕ → List ℕ → List ℕ
put_u32 value buffer =
    put_u8 (value / 2 ^ 0)
      (put_u8 (value / 2 ^ 8) (put_u8 (value / 2 ^ 16) (put_u8 (value / 2 ^ 24) buffer)))

abbrev pub put_u48 : ℕ → List ℕ → List ℕ
put_u48 value buffer = put_u32 value (put_u8 (value / 2 ^ 32) (put_u8 (value / 2 ^ 40) buffer))

abbrev pub put_u64 : ℕ → List ℕ → List ℕ
put_u64 value buffer = put_u48 value (put_u8 (value / 2 ^ 48) (put_u8 (value / 2 ^ 56) buffer))

-- The characters, filled up with blanks.
abbrev pub put_chars : List ℕ → ℕ → List ℕ → List ℕ
put_chars value zero buffer = buffer
put_chars [] (suc width) buffer = put_chars [] width (put_u8 b' ' buffer)
put_chars (c ∷ cs) (suc width) buffer = put_chars cs width (put_u8 c buffer)

-- From an empty buffer.
abbrev pub put_header : ℕ → ℕ → List ℕ
put_header type timestamp = put_u48 timestamp (put_u16 0 (put_u16 1 (put_u8 type [])))

-- The output behind `frame`, which leaves the buffer empty.
abbrev pub write_frame : List ℕ → List ℕ → List ℕ
write_frame buffer output = output ++ (length buffer / 2 ^ 8 % 256) ∷ (length buffer % 256) ∷ buffer

abbrev pub symbol : List ℕ
symbol = b'A' ∷ b'A' ∷ b'P' ∷ b'L' ∷ []

abbrev pub side_char : Side → ℕ
side_char buy = b'B'
side_char sell = b'S'

abbrev pub write_add : ℕ → ℕ → Side → ℕ → ℕ → List ℕ → List ℕ
write_add id timestamp side quantity price output =
    write_frame
      (put_u32 price (
        put_chars symbol 8
          (put_u32 quantity (put_u8 (side_char side) (put_u64 id (put_header b'A' timestamp))))))
      output

abbrev pub write_cancel : ℕ → ℕ → ℕ → List ℕ → List ℕ
write_cancel id timestamp quantity output =
    write_frame (put_u32 quantity (put_u64 id (put_header b'X' timestamp))) output

abbrev pub write_delete_order : ℕ → ℕ → List ℕ → List ℕ
write_delete_order id timestamp output = write_frame (put_u64 id (put_header b'D' timestamp)) output

abbrev pub write_execute : ℕ → ℕ → ℕ → List ℕ → List ℕ
write_execute id timestamp quantity output =
    write_frame
      (put_u64 ((id + 9000000) % 2 ^ 64)
        (put_u32 quantity (put_u64 id (put_header b'E' timestamp))))
      output

abbrev pub write_replace : ℕ → ℕ → ℕ → ℕ → ℕ → List ℕ → List ℕ
write_replace old_id new_id timestamp quantity price output =
    write_frame
      (put_u32 price
        (put_u32 quantity (put_u64 new_id (put_u64 old_id (put_header b'U' timestamp)))))
      output

-- The locals of `main`, and the file.
pub record Feed : Type 0 where
  pub emitted : ℕ
  pub id : ℕ
  pub timestamp : ℕ
  pub output : List ℕ

abbrev pub side_of : ℕ → Side
side_of id = if not (id / 4 % 2 == 0) then buy else sell

abbrev pub quantity_of : ℕ → ℕ
quantity_of id = 100 + id % 900

abbrev pub price_of : Side → ℕ → ℕ
price_of buy id = 1850000 - id % 100 * 100
price_of sell id = 1850100 + id % 100 * 100

abbrev pub price_after : Side → ℕ → ℕ
price_after buy price = price - 100
price_after sell price = price + 100

-- The switch.
abbrev pub write_second : ℕ → ℕ → List ℕ → List ℕ
write_second id timestamp output =
    if id % 4 == 0
    then write_cancel id timestamp (quantity_of id) output
    else if id % 4 == 1
    then write_execute id timestamp (quantity_of id) output
    else if id % 4 == 2
    then write_delete_order id timestamp output
    else write_replace id ((id + 1000000000) % 2 ^ 64) timestamp 50
        (price_after (side_of id) (price_of (side_of id) id)) output

abbrev pub after_add : Feed → Feed
after_add s = record {
  emitted = (s.emitted + 1) % 2 ^ 64;
  id = s.id;
  timestamp = (s.timestamp + 1) % 2 ^ 64;
  output =
      write_add s.id s.timestamp (side_of s.id) (quantity_of s.id) (price_of (side_of s.id) s.id)
        s.output;
}

abbrev pub after_second : Feed → Feed
after_second s = record {
  emitted = (s.emitted + 1) % 2 ^ 64;
  id = s.id;
  timestamp = (s.timestamp + 1) % 2 ^ 64;
  output = write_second s.id s.timestamp s.output;
}

abbrev pub next_id : Feed → Feed
next_id s = record s { id = (s.id + 1) % 2 ^ 64 }

-- The body of the loop.
abbrev pub generate_round : Bool → ℕ → Feed → Feed
generate_round sequential count s =
    let a = after_add s in
    if sequential || a.emitted == count then next_id a else next_id (after_second a)

-- The loop, with at most `n` rounds; `none` is a loop that goes on.
unfoldable pub generate_from : ℕ → Bool → ℕ → Feed → Option (List ℕ)
generate_from zero sequential count s = none
generate_from (suc n) sequential count s =
    let rest = generate_from n sequential count (generate_round sequential count s) in
    if ltb s.emitted count then rest else some s.output

-- A round writes a message at least.
unfoldable pub generate : Bool → ℕ → Option (List ℕ)
unfolding generate_from
generate sequential count =
    generate_from (count + 1) sequential count
      (record { emitted = 0; id = 1; timestamp = 1; output = [] })
