-- ===== src/Itch/Parser/RoundTrip.antt =====
-- `parse_message` gives back every message from its wire form.
use stock_data_engine.Base.{ℕ, ◌+◌, ◌≡◌, some, List, [], ◌∷◌, ◌++◌, length, arith, ne→==, eq→==}
use stock_data_engine.Itch.Messages.{
  Header, Message, ParseResult, system_event, stock_directory, stock_trading_action,
  reg_sho_restriction, market_participant_position, mwcb_decline_level, mwcb_status,
  ipo_quoting_period, luld_auction_collar, operational_halt, add_order, add_order_mpid,
  order_executed, order_executed_with_price, order_cancel, order_delete, order_replace, trade,
  cross_trade, broken_trade, noii, retail_price_improvement,
}
use stock_data_engine.Itch.Parser.{expected_message_length, read_body, parse_message, returned}
use stock_data_engine.Itch.Parser.Read.{◌>>=◌}
use stock_data_engine.Itch.Parser.Reply.{succeeded}
use stock_data_engine.Itch.Parser.Fields.{be_header, HeaderFits, read_header-be}
use stock_data_engine.Itch.Parser.Encode.{
  encode, type_code, header_of, body, BodyFits, Fits, body_operational_halt, encode_wire,
  with_market_code,
}
use stock_data_engine.Itch.Parser.MarketTrips.{
  read_system_event-body, length-body_system_event, read_stock_directory-body,
  length-body_stock_directory, read_stock_trading_action-body, length-body_stock_trading_action,
  read_reg_sho_restriction-body, length-body_reg_sho_restriction,
  read_market_participant_position-body, length-body_market_participant_position,
  read_mwcb_decline_level-body, length-body_mwcb_decline_level, read_mwcb_status-body,
  length-body_mwcb_status, read_ipo_quoting_period-body, length-body_ipo_quoting_period,
  read_luld_auction_collar-body, length-body_luld_auction_collar, read_operational_halt-body,
  length-body_operational_halt, read_cross_trade-body, length-body_cross_trade,
  read_broken_trade-body, length-body_broken_trade, read_noii-body, length-body_noii,
  read_retail_price_improvement-body, length-body_retail_price_improvement,
}
use stock_data_engine.Itch.Parser.OrderTrips.{
  read_add_order-body, length-body_add_order, read_add_order_mpid-body, length-body_add_order_mpid,
  read_order_executed-body, length-body_order_executed, read_order_executed_with_price-body,
  length-body_order_executed_with_price, read_order_cancel-body, length-body_order_cancel,
  read_order_delete-body, length-body_order_delete, read_order_replace-body,
  length-body_order_replace, read_trade-body, length-body_trade,
}

parse_message_of_body :
    (t : ℕ) (h : Header) (bs rest : List ℕ) (r : ParseResult)
    → HeaderFits h
    → expected_message_length t ≡ length bs + 11
    → read_body t h bs ≡ some (r, rest)
    → parse_message (t ∷ (be_header h ++ bs)) ≡ some r
unfolding parse_message
parse_message_of_body t h bs rest r fits len read = rw (
  ne→== (expected_message_length t) 0 (omega (arith, len)),
  eq→== (length (t ∷ (be_header h ++ bs))) (expected_message_length t) (omega (arith, len)),
  read_header-be h bs fits,
  ◌>>=◌,
  read,
  returned,
)

-- The length table has the length of each encoding.
pub expected_message_length-encode :
    (m : Message) → BodyFits m → expected_message_length (type_code m) ≡ length (body m) + 11
unfolding expected_message_length
expected_message_length-encode (system_event m) f = omega (arith, length-body_system_event m f)
expected_message_length-encode (stock_directory m) f =
    omega (arith, length-body_stock_directory m f)
expected_message_length-encode (stock_trading_action m) f =
    omega (arith, length-body_stock_trading_action m f)
expected_message_length-encode (reg_sho_restriction m) f =
    omega (arith, length-body_reg_sho_restriction m f)
expected_message_length-encode (market_participant_position m) f =
    omega (arith, length-body_market_participant_position m f)
expected_message_length-encode (mwcb_decline_level m) f =
    omega (arith, length-body_mwcb_decline_level m f)
expected_message_length-encode (mwcb_status m) f = omega (arith, length-body_mwcb_status m f)
expected_message_length-encode (ipo_quoting_period m) f =
    omega (arith, length-body_ipo_quoting_period m f)
expected_message_length-encode (luld_auction_collar m) f =
    omega (arith, length-body_luld_auction_collar m f)
expected_message_length-encode (operational_halt m) f =
    omega (arith, length-body_operational_halt m.action m f)
expected_message_length-encode (add_order m) f = omega (arith, length-body_add_order m f)
expected_message_length-encode (add_order_mpid m) f = omega (arith, length-body_add_order_mpid m f)
expected_message_length-encode (order_executed m) f = omega (arith, length-body_order_executed m f)
expected_message_length-encode (order_executed_with_price m) f =
    omega (arith, length-body_order_executed_with_price m f)
expected_message_length-encode (order_cancel m) f = omega (arith, length-body_order_cancel m f)
expected_message_length-encode (order_delete m) f = omega (arith, length-body_order_delete m f)
expected_message_length-encode (order_replace m) f = omega (arith, length-body_order_replace m f)
expected_message_length-encode (trade m) f = omega (arith, length-body_trade m f)
expected_message_length-encode (cross_trade m) f = omega (arith, length-body_cross_trade m f)
expected_message_length-encode (broken_trade m) f = omega (arith, length-body_broken_trade m f)
expected_message_length-encode (noii m) f = omega (arith, length-body_noii m f)
expected_message_length-encode (retail_price_improvement m) f =
    omega (arith, length-body_retail_price_improvement m f)

-- What the switch leaves unread.
abbrev pub unread : Message → List ℕ
unread (operational_halt m) = m.action ∷ []
unread m = []

read_body-body :
    (m : Message)
    → BodyFits m
    → read_body (type_code m) (header_of m) (body m) ≡ some (succeeded m, unread m)
unfolding read_body
read_body-body (system_event m) f = read_system_event-body m f
read_body-body (stock_directory m) f = read_stock_directory-body m f
read_body-body (stock_trading_action m) f = read_stock_trading_action-body m f
read_body-body (reg_sho_restriction m) f = read_reg_sho_restriction-body m f
read_body-body (market_participant_position m) f = read_market_participant_position-body m f
read_body-body (mwcb_decline_level m) f = read_mwcb_decline_level-body m f
read_body-body (mwcb_status m) f = read_mwcb_status-body m f
read_body-body (ipo_quoting_period m) f = read_ipo_quoting_period-body m f
read_body-body (luld_auction_collar m) f = read_luld_auction_collar-body m f
read_body-body (operational_halt m) f = read_operational_halt-body m.action m f
read_body-body (add_order m) f = read_add_order-body m f
read_body-body (add_order_mpid m) f = read_add_order_mpid-body m f
read_body-body (order_executed m) f = read_order_executed-body m f
read_body-body (order_executed_with_price m) f = read_order_executed_with_price-body m f
read_body-body (order_cancel m) f = read_order_cancel-body m f
read_body-body (order_delete m) f = read_order_delete-body m f
read_body-body (order_replace m) f = read_order_replace-body m f
read_body-body (trade m) f = read_trade-body m f
read_body-body (cross_trade m) f = read_cross_trade-body m f
read_body-body (broken_trade m) f = read_broken_trade-body m f
read_body-body (noii m) f = read_noii-body m f
read_body-body (retail_price_improvement m) f = read_retail_price_improvement-body m f

-- Every message whose fields fit the wire format is parsed back from its encoding, in which an
-- operational halt has its action for a market code.
pub parse_message-encode : (m : Message) → Fits m → parse_message (encode m) ≡ some (succeeded m)
parse_message-encode m f =
    parse_message_of_body (type_code m) (header_of m) (body m) (unread m) (succeeded m) f.0
      (expected_message_length-encode m f.1) (read_body-body m f.1)

-- A message of any of the 22 types of ITCH 5.0 whose fields fit the wire format is parsed from its
-- big-endian encoding, with any market code for an operational halt: one of the other 21 types
-- comes back with all its fields, and an operational halt with its header and stock, but with the
-- market code for its action.
pub parse_message-encode_wire :
    (market_code : ℕ) (m : Message)
    → Fits m
    → parse_message (encode_wire market_code m) ≡ some (succeeded (with_market_code market_code m))
unfolding read_body expected_message_length
parse_message-encode_wire market_code (operational_halt m) f =
    parse_message_of_body b'h' m.header (body_operational_halt market_code m) (m.action ∷ [])
      (succeeded (operational_halt (record m { action = market_code }))) f.0
      (omega (arith, length-body_operational_halt market_code m f.1))
      (read_operational_halt-body market_code m f.1)
parse_message-encode_wire market_code m f = parse_message-encode m f
