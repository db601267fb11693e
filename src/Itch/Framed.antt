-- ===== src/Itch/Framed.antt =====
-- `FramedDecoder` of include/itch/parser.hpp: the decoder of the file framing, with its buffers, over
-- inputs that come in parts. The callback acts on a state of the caller's.
pub mod Bytewise
pub mod Chunks
pub mod Frame
pub mod Stream
pub mod Cut
pub mod Encoded
pub mod Callback
mod Tests
use stock_data_engine.Base.{
  ℕ, zero, suc, ◌+◌, ◌-◌, ◌*◌, ◌%◌, ◌^◌, min, Bool, true, false, Option, none, some, List, [], ◌∷◌,
  length, take, drop, get_or, set, replicate, ltb, ◌==◌, ◌&&◌, ◌||◌, not, if◌then◌else◌,
}
use stock_data_engine.Itch.Messages.{Message, ParseError, ParseResult}
use stock_data_engine.Itch.Parser.{parse_message}

pub record DecoderStats : Type 0 where
  pub decoded : ℕ
  pub malformed : ℕ
  pub unsupported : ℕ

pub record FramedDecoder : Type 0 where
  pub length_buf : List ℕ
  pub message_buf : List ℕ
  pub length_bytes : ℕ
  pub expected : ℕ
  pub used : ℕ
  pub stats : DecoderStats

abbrev pub max_message_size : ℕ
max_message_size = 64

-- The decoder before any input.
abbrev pub fresh_decoder : FramedDecoder
fresh_decoder = record {
  length_buf = replicate 2 0;
  message_buf = replicate max_message_size 0;
  length_bytes = 0;
  expected = 0;
  used = 0;
  stats = record { decoded = 0; malformed = 0; unsupported = 0 };
}

abbrev pub reset : FramedDecoder → FramedDecoder
reset d = record d { length_bytes = 0; expected = 0; used = 0 }

abbrev pub count_decoded : DecoderStats → DecoderStats
count_decoded s = record s { decoded = (s.decoded + 1) % 2 ^ 64 }

abbrev pub count_malformed : DecoderStats → DecoderStats
count_malformed s = record s { malformed = (s.malformed + 1) % 2 ^ 64 }

abbrev pub count_unsupported : DecoderStats → DecoderStats
count_unsupported s = record s { unsupported = (s.unsupported + 1) % 2 ^ 64 }

-- The `else` branches after a parse that failed.
abbrev pub count_failure : ParseError → DecoderStats → DecoderStats
count_failure ParseError.unsupported_type s = count_unsupported s
count_failure _ s = count_malformed s

-- `std::copy_n` to the bytes from `i` on.
unfoldable pub copy_to : List ℕ → ℕ → List ℕ → List ℕ
copy_to buf i [] = buf
copy_to buf i (b ∷ bs) = copy_to (set buf i b) (i + 1) bs

-- `(length_buf_[0] << 8) | length_buf_[1]`
abbrev pub frame_length : List ℕ → ℕ
frame_length buf = get_or buf 0 0 * 256 + get_or buf 1 0

-- One byte of the length.
abbrev pub put_length : FramedDecoder → ℕ → FramedDecoder
put_length d b = record d {
  length_buf = set d.length_buf d.length_bytes b;
  length_bytes = d.length_bytes + 1;
}

abbrev pub with_expected : FramedDecoder → FramedDecoder
with_expected d = record d { expected = frame_length d.length_buf }

abbrev pub bad_length : FramedDecoder → Bool
bad_length d = d.expected == 0 || ltb max_message_size d.expected

abbrev pub refuse : FramedDecoder → FramedDecoder
refuse d = reset (record d { stats = count_malformed d.stats })

-- The copy of the bytes that are there.
abbrev pub put_bytes : FramedDecoder → List ℕ → FramedDecoder
put_bytes d bs = record d {
  message_buf = copy_to d.message_buf d.used bs;
  used = d.used + length bs;
}

module _ {S : Type 0} (callback : S → Message → S) where
  abbrev pub deliver : ParseError → Message → FramedDecoder → S → FramedDecoder × S
  deliver ParseError.none m d s = (record d { stats = count_decoded d.stats }, callback s m)
  deliver e m d s = (record d { stats = count_failure e d.stats }, s)

  -- What follows `parse_message`. That always returns, so the first clause stands for nothing.
  abbrev pub report : Option ParseResult → FramedDecoder → S → FramedDecoder × S
  report none d s = (d, s)
  report (some r) d s = deliver r.error r.message d s

  abbrev pub reset_after : FramedDecoder × S → FramedDecoder × S
  reset_after (d, s) = (reset d, s)

  -- The block `if (used_ == expected_)`.
  unfoldable pub complete : FramedDecoder → S → FramedDecoder × S
  complete d s =
      if d.used == d.expected
      then reset_after (report (parse_message (take d.expected d.message_buf)) d s)
      else (d, s)

  abbrev pub Loop : Type 0
  Loop = List ℕ → FramedDecoder → S → Bool × FramedDecoder × S

  -- From `const auto take` to the end of the loop's body; `next` is the next round.
  abbrev pub fill : Loop → Loop
  fill next input d s =
      let n = min (d.expected - d.used) (length input) in
      let (d', s') = complete (put_bytes d (take n input)) s in next (drop n input) d' s'

  abbrev pub checked_length : Loop → Loop
  checked_length next input d s = if bad_length d then (false, refuse d, s) else fill next input d s

  abbrev pub length_byte : Loop → ℕ → Loop
  length_byte next b rest d s =
      let d' = put_length d b in
      if not (d'.length_bytes == 2)
      then next rest d' s
      else checked_length next rest (with_expected d') s

  abbrev pub round : Loop → ℕ → Loop
  round next b rest d s =
      if ltb d.length_bytes 2 then length_byte next b rest d s else fill next (b ∷ rest) d s

  -- The loop, with at most `n` rounds.
  unfoldable pub consume_from : ℕ → Loop
  consume_from zero input d s = (true, d, s)
  consume_from (suc n) [] d s = (true, d, s)
  consume_from (suc n) (b ∷ rest) d s = round (consume_from n) b rest d s

  -- Every round takes a byte at least.
  unfoldable pub consume : Loop
  unfolding consume_from
  consume input d s = consume_from (length input) input d s

-- At the end of the input.
unfoldable pub finish : FramedDecoder → Bool × FramedDecoder
finish d = if d.length_bytes == 0 && d.used == 0 then (true, d) else (false, refuse d)
