-- ===== src/Itch/Framed/Encoded.antt =====
-- `FramedDecoder` of include/itch/parser.hpp on the frames of encoded messages.
use stock_data_engine.Base.{ℕ, ◌≤◌, ◌≡◌, refl, ap, ◌∙◌, true, List, [], ◌∷◌, arith, map, All}
use stock_data_engine.Itch.Messages.{Message}
use stock_data_engine.Itch.Parser.{expected_message_length}
use stock_data_engine.Itch.Parser.Encode.{encode, Fits, type_code}
use stock_data_engine.Itch.Parser.RoundTrip.{parse_message-encode, expected_message_length-encode}
use stock_data_engine.Itch.Mold.Frames.{frames}
use stock_data_engine.Itch.Framed.{DecoderStats, FramedDecoder, consume, count_decoded}
use stock_data_engine.Itch.Framed.Frame.{
  hear_all, hear_parsed, tally_all, tally_parsed, IsFrame, AtStart,
}
use stock_data_engine.Itch.Framed.Stream.{Leaves, consume-frames}

expected_message_length-le : (t : ℕ) → expected_message_length t ≤ 50
unfolding expected_message_length
expected_message_length-le t = ground arith

encode-IsFrame : (m : Message) → Fits m → IsFrame (encode m)
encode-IsFrame m f = (
  omega arith,
  omega (arith, expected_message_length-encode m f.1, expected_message_length-le (type_code m)),
)

encoded-frames : (ms : List Message) → All Fits ms → All IsFrame (map encode ms)
encoded-frames [] f = tt
encoded-frames (m ∷ ms) f = (encode-IsFrame m f.0, encoded-frames ms f.1)

-- The callback on each message in turn.
abbrev pub call_all : {S : Type 0} → (S → Message → S) → S → List Message → S
call_all callback s [] = s
call_all callback s (m ∷ ms) = call_all callback (callback s m) ms

abbrev pub count_all : DecoderStats → List Message → DecoderStats
count_all c [] = c
count_all c (m ∷ ms) = count_all (count_decoded c) ms

hear_all-encode :
    {S : Type 0} (callback : S → Message → S) (s : S) (ms : List Message)
    → All Fits ms
    → hear_all callback s (map encode ms) ≡ call_all callback s ms
hear_all-encode callback s [] f = refl
hear_all-encode callback s (m ∷ ms) f =
    ap (λ r. hear_all callback (hear_parsed callback s r) (map encode ms))
      (parse_message-encode m f.0)
    ∙ hear_all-encode callback (callback s m) ms f.1

tally_all-encode :
    (c : DecoderStats) (ms : List Message)
    → All Fits ms
    → tally_all c (map encode ms) ≡ count_all c ms
tally_all-encode c [] f = refl
tally_all-encode c (m ∷ ms) f =
    ap (λ r. tally_all (tally_parsed c r) (map encode ms)) (parse_message-encode m f.0)
    ∙ tally_all-encode (count_decoded c) ms f.1

-- From a decoder with no frame begun, a file of framed messages whose fields fit the wire format
-- is decoded in full: the callback gets exactly these messages in this order, each is counted as
-- decoded, and no frame is left begun; an operational halt is encoded with its action for a market
-- code.
pub consume-encode :
    {S : Type 0} (callback : S → Message → S) (ms : List Message) (d : FramedDecoder) (s : S)
    → AtStart d
    → All Fits ms
    → Leaves callback
        (consume callback (frames (map encode ms)) d s)
        true
        (call_all callback s ms)
        (count_all d.stats ms)
consume-encode callback ms d s v f =
    rw (← hear_all-encode callback s ms f, ← tally_all-encode d.stats ms f)
      (consume-frames callback (map encode ms) d s v (encoded-frames ms f))
