-- ===== src/Itch/Framed/Tests.antt =====
-- `FramedDecoder` of include/itch/parser.hpp on two frames, in parts, cut short, and with a bad length.
use stock_data_engine.Base.{ℕ, ◌+◌, ◌≡◌, refl, true, false, List, [], ◌∷◌, ◌++◌, take, arith, inr}
use stock_data_engine.Itch.Messages.{Message, order_delete}
use stock_data_engine.Itch.Parser.Encode.{encode, Fits}
use stock_data_engine.Itch.Mold.Frames.{frame, frames}
use stock_data_engine.Itch.Framed.{fresh_decoder, consume, finish, count_malformed}
use stock_data_engine.Itch.Framed.Bytewise.{IsDecoder, and_then}
use stock_data_engine.Itch.Framed.Chunks.{
  fresh_decoder-IsDecoder, consume-append, consume-IsDecoder,
}
use stock_data_engine.Itch.Framed.Frame.{AtStart, hear_all, tally_all}
use stock_data_engine.Itch.Framed.Stream.{Leaves, consume-bad_length}
use stock_data_engine.Itch.Framed.Cut.{finish-cut}
use stock_data_engine.Itch.Framed.Encoded.{consume-encode}

abbrev count_messages : ℕ → Message → ℕ
count_messages n m = n + 1

abbrev delete_77 : Message
delete_77 = order_delete (record {
  header = record { stock_locate = 1; tracking_number = 2; timestamp = 3 };
  order_id = 77;
})

abbrev short_frame : List ℕ
short_frame = b'D' ∷ 1 ∷ []

fresh-AtStart : AtStart fresh_decoder
fresh-AtStart = record { valid = fresh_decoder-IsDecoder; no_length = refl }

consume-append_example :
    consume count_messages (0 ∷ 2 ∷ b'D' ∷ 1 ∷ []) fresh_decoder 0
    ≡ and_then count_messages
        (consume count_messages (0 ∷ []) fresh_decoder 0)
        (consume count_messages (2 ∷ b'D' ∷ 1 ∷ []))
consume-append_example =
    consume-append count_messages (0 ∷ []) (2 ∷ b'D' ∷ 1 ∷ []) fresh_decoder 0
      fresh_decoder-IsDecoder

consume-IsDecoder_example : IsDecoder (consume count_messages (0 ∷ 9 ∷ 1 ∷ []) fresh_decoder 0).1
consume-IsDecoder_example =
    consume-IsDecoder count_messages (0 ∷ 9 ∷ 1 ∷ []) fresh_decoder 0 fresh_decoder-IsDecoder

consume-encode_example :
    Leaves count_messages
      (consume count_messages (frames (encode delete_77 ∷ encode delete_77 ∷ [])) fresh_decoder 0)
      true
      2
      (record { decoded = 2; malformed = 0; unsupported = 0 })
consume-encode_example =
    consume-encode count_messages (delete_77 ∷ delete_77 ∷ []) fresh_decoder 0 fresh-AtStart
      (fits, (fits, tt))
  where
    fits : Fits delete_77
    fits = ((omega arith, omega arith, omega arith), omega arith)

consume-bad_length_example :
    Leaves count_messages
      (consume count_messages (frames (short_frame ∷ []) ++ 0 ∷ 65 ∷ 7 ∷ []) fresh_decoder 0)
      false
      (hear_all count_messages 0 (short_frame ∷ []))
      (count_malformed (tally_all fresh_decoder.stats (short_frame ∷ [])))
consume-bad_length_example =
    consume-bad_length count_messages (short_frame ∷ []) 0 65 (7 ∷ []) fresh_decoder 0 fresh-AtStart
      ((omega arith, omega arith), tt) (inr (omega arith))

finish-cut_example :
    (finish (consume count_messages (frames [] ++ take 3 (frame short_frame)) fresh_decoder 0).1).0
    ≡ false
finish-cut_example =
    (finish-cut count_messages [] short_frame 2 fresh_decoder 0 fresh-AtStart tt
      (omega arith, omega arith) (omega arith)).2
