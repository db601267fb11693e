-- ===== src/Itch/Parser/Tests.antt =====
-- The parser of src/parser.cpp on an order-delete message and an operational halt.
use stock_data_engine.Base.{ℕ, ◌≡◌, refl, some, List, [], ◌∷◌, arith, replicate}
use stock_data_engine.Itch.Messages.{
  Message, ParseError, ParseResult, OperationalHalt, order_delete, operational_halt,
}
use stock_data_engine.Itch.Parser.{parse_message, expected_message_length}
use stock_data_engine.Itch.Parser.Reply.{succeeded, failed}
use stock_data_engine.Itch.Parser.Encode.{encode, encode_wire}
use stock_data_engine.Itch.Parser.Total.{parse_message-total}
use stock_data_engine.Itch.Parser.RoundTrip.{parse_message-encode, parse_message-encode_wire}

abbrev delete_777 : Message
delete_777 = order_delete (record {
  header = record { stock_locate = 1; tracking_number = 2; timestamp = 256 };
  order_id = 777;
})

abbrev wire_777 : List ℕ
wire_777 = b'D' ∷ 0 ∷ 1 ∷ 0 ∷ 2 ∷ 0 ∷ 0 ∷ 0 ∷ 0 ∷ 1 ∷ 0 ∷ 0 ∷ 0 ∷ 0 ∷ 0 ∷ 0 ∷ 0 ∷ 3 ∷ 9 ∷ []

encode_777 : encode delete_777 ≡ wire_777
encode_777 = refl

parse_777 : parse_message wire_777 ≡ some (succeeded delete_777)
parse_777 = parse_message-encode delete_777 ((omega arith, omega arith, omega arith), omega arith)

-- A halt of `action` for 8 characters of stock.
abbrev halt : ℕ → OperationalHalt
halt action = record {
  header = record { stock_locate = 1; tracking_number = 2; timestamp = 3 };
  stock = replicate 8 b'Z';
  action = action;
}

-- The halt of the market with code Q: its action is lost.
parse_message-encode_wire_example :
    parse_message (encode_wire b'Q' (operational_halt (halt b'H')))
    ≡ some (succeeded (operational_halt (halt b'Q')))
parse_message-encode_wire_example =
    parse_message-encode_wire b'Q' (operational_halt (halt b'H'))
      ((omega arith, omega arith, omega arith), refl)

short_777 : parse_message (b'D' ∷ 0 ∷ []) ≡ some (failed ParseError.wrong_length)
unfolding parse_message expected_message_length
short_777 = refl

parse_message-total_example : (r : ParseResult) × (parse_message wire_777 ≡ some r)
parse_message-total_example = parse_message-total wire_777
