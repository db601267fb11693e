-- ===== src/Itch/Mold/Tests.antt =====
-- `MoldDecoder::decode` of include/itch/moldudp64.hpp on packets with two messages.
use stock_data_engine.Base.{◌≡◌, refl, true, Bool, List, [], ◌∷◌, ℕ, length, All, drop, arith}
use stock_data_engine.Itch.Mold.{
  MoldHeader, none, read_header, read_u16, read_u64, validate, decode,
}
use stock_data_engine.Itch.Mold.Frames.{frames, Short}
use stock_data_engine.Itch.Mold.Packet.{encode_packet, decode-encode, decode-accepts}
use stock_data_engine.Itch.Mold.Dispatch.{decode-atomic}

-- The caller keeps the sequence numbers that it gets, the last first.
abbrev record_sequence : List ℕ → List ℕ → ℕ → List ℕ
record_sequence seen message sequence = sequence ∷ seen

abbrev open_gate : List ℕ → MoldHeader → Bool × List ℕ
open_gate seen h = (true, seen)

abbrev two_header : MoldHeader
two_header = record {
  session = 48 ∷ 48 ∷ 48 ∷ 48 ∷ 48 ∷ 48 ∷ 48 ∷ 48 ∷ 48 ∷ 48 ∷ [];
  sequence = 300;
  message_count = 2;
}

abbrev two_messages : List (List ℕ)
two_messages = (b'S' ∷ 1 ∷ []) ∷ (b'D' ∷ []) ∷ []

abbrev two_packet : List ℕ
two_packet = encode_packet two_header (frames two_messages)

abbrev long_packet : List ℕ
long_packet = encode_packet two_header (0 ∷ 0 ∷ 0 ∷ 0 ∷ 9 ∷ [])

decode-encode_example :
    decode record_sequence open_gate two_packet []
    ≡ (record { error = none; header = two_header; messages_decoded = 2 }, 301 ∷ 300 ∷ [])
decode-encode_example =
    decode-encode record_sequence open_gate two_header two_messages []
      (refl, omega arith, omega arith) refl (omega arith) (omega arith)

two_packet-accepted : (decode record_sequence open_gate two_packet []).0.error ≡ none
unfolding decode read_header read_u16 read_u64 validate
two_packet-accepted = refl

decode-accepts_example :
    (ms : List (List ℕ)) × (length ms ≡ 2) × (drop 20 two_packet ≡ frames ms) × All Short ms
unfolding read_header read_u16
decode-accepts_example =
    decode-accepts record_sequence open_gate two_packet [] (ground arith) (omega arith)
      (λ e. ground (arith, e)) (λ e. ground (arith, e)) two_packet-accepted

decode-atomic_example :
    ((decode record_sequence open_gate long_packet []).1 ≡ [])
    × ((decode record_sequence open_gate long_packet []).0.messages_decoded ≡ 0)
unfolding decode read_header read_u16 validate
decode-atomic_example =
    decode-atomic record_sequence open_gate long_packet [] (λ e. ground (arith, e))
