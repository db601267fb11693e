-- ===== src/Itch/Parser.antt =====
-- src/parser.cpp: the length table and `parse_message`. The readers of the fields and of the bodies
-- are in the modules below, with what is proved of them.
pub mod Read
pub mod Reply
pub mod Fields
pub mod Market
pub mod Orders
pub mod Encode
pub mod Reads
mod MarketReads
mod OrderReads
pub mod Total
mod MarketTrips
mod OrderTrips
pub mod RoundTrip
mod Tests
use stock_data_engine.Base.{ℕ, Option, none, some, List, [], ◌∷◌, length, ◌==◌, not, if◌then◌else◌}
use stock_data_engine.Itch.Messages.{Header, Message, ParseError, ParseResult}
use Read.{Reader, ◌>>=◌, pure, read_header}
use Reply.{failed}
use Market.{
  read_system_event, read_stock_directory, read_stock_trading_action, read_reg_sho_restriction,
  read_market_participant_position, read_mwcb_decline_level, read_mwcb_status,
  read_ipo_quoting_period, read_luld_auction_collar, read_operational_halt, read_cross_trade,
  read_broken_trade, read_noii, read_retail_price_improvement,
}
use Orders.{
  read_add_order, read_add_order_mpid, read_order_executed, read_order_executed_with_price,
  read_order_cancel, read_order_delete, read_order_replace, read_trade,
}

unfoldable pub expected_message_length : ℕ → ℕ
expected_message_length t =
    if t == b'S'
    then 12
    else if t == b'R'
    then 39
    else if t == b'H'
    then 25
    else if t == b'Y'
    then 20
    else if t == b'L'
    then 26
    else if t == b'V'
    then 35
    else if t == b'W'
    then 12
    else if t == b'K'
    then 28
    else if t == b'J'
    then 35
    else if t == b'h'
    then 21
    else if t == b'A'
    then 36
    else if t == b'F'
    then 40
    else if t == b'E'
    then 31
    else if t == b'C'
    then 36
    else if t == b'X'
    then 23
    else if t == b'D'
    then 19
    else if t == b'U'
    then 35
    else if t == b'P'
    then 44
    else if t == b'Q'
    then 40
    else if t == b'B'
    then 19
    else if t == b'I'
    then 50
    else if t == b'N'
    then 20
    else 0

-- The switch on the type, its default included.
unfoldable pub read_body : ℕ → Header → Reader ParseResult
read_body type h =
    if type == b'S'
    then read_system_event h
    else if type == b'R'
    then read_stock_directory h
    else if type == b'H'
    then read_stock_trading_action h
    else if type == b'Y'
    then read_reg_sho_restriction h
    else if type == b'L'
    then read_market_participant_position h
    else if type == b'V'
    then read_mwcb_decline_level h
    else if type == b'W'
    then read_mwcb_status h
    else if type == b'K'
    then read_ipo_quoting_period h
    else if type == b'J'
    then read_luld_auction_collar h
    else if type == b'h'
    then read_operational_halt h
    else if type == b'A'
    then read_add_order h
    else if type == b'F'
    then read_add_order_mpid h
    else if type == b'E'
    then read_order_executed h
    else if type == b'C'
    then read_order_executed_with_price h
    else if type == b'X'
    then read_order_cancel h
    else if type == b'D'
    then read_order_delete h
    else if type == b'U'
    then read_order_replace h
    else if type == b'P'
    then read_trade h
    else if type == b'Q'
    then read_cross_trade h
    else if type == b'B'
    then read_broken_trade h
    else if type == b'I'
    then read_noii h
    else if type == b'N'
    then read_retail_price_improvement h
    else pure (failed ParseError.unsupported_type)

read_message : ℕ → Reader ParseResult
read_message type = do h ← read_header; read_body type h

-- What the function returns: the reader's state is dropped.
abbrev returned : Option (ParseResult × List ℕ) → Option ParseResult
returned none = none
returned (some (r, rest)) = some r

-- `none` is a read past the end of `b`.
unfoldable pub parse_message : List ℕ → Option ParseResult
unfolding read_message
parse_message [] = some (failed ParseError.empty)
parse_message (type ∷ rest) =
    let n = expected_message_length type in
    if n == 0
    then some (failed ParseError.unsupported_type)
    else if not (length (type ∷ rest) == n)
    then some (failed ParseError.wrong_length)
    else returned (read_message type rest)
