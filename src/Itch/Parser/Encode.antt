-- ===== src/Itch/Parser/Encode.antt =====
-- An encoder for each message type, after the field lists of include/itch/messages.hpp, and the
-- ranges that the wire format can hold. It is the independent description of the format against
-- which `parse_message` is judged; an operational halt has the field of ITCH 5.0 that the header lacks.
use stock_data_engine.Base.{ℕ, ◌≡◌, List, [], ◌∷◌, ◌++◌, length, IsU32, IsU64}
use stock_data_engine.Itch.Messages.{
  Header, Message, SystemEvent, StockDirectory, StockTradingAction, RegShoRestriction,
  MarketParticipantPosition, MwcbDeclineLevel, MwcbStatus, IpoQuotingPeriod, LuldAuctionCollar,
  OperationalHalt, AddOrder, AddOrderMpid, OrderExecuted, OrderExecutedWithPrice, OrderCancel,
  OrderDelete, OrderReplace, Trade, CrossTrade, BrokenTrade, Noii, RetailPriceImprovement,
  system_event, stock_directory, stock_trading_action, reg_sho_restriction,
  market_participant_position, mwcb_decline_level, mwcb_status, ipo_quoting_period,
  luld_auction_collar, operational_halt, add_order, add_order_mpid, order_executed,
  order_executed_with_price, order_cancel, order_delete, order_replace, trade, cross_trade,
  broken_trade, noii, retail_price_improvement,
}
use stock_data_engine.Itch.Parser.Fields.{be32, be64, be_header, side_code, HeaderFits}

abbrev pub body_system_event : SystemEvent → List ℕ
body_system_event m = m.event_code ∷ []

abbrev pub body_stock_directory : StockDirectory → List ℕ
body_stock_directory m =
    m.stock
    ++ (m.market_category
        ∷ (m.financial_status
            ∷ (be32 m.round_lot_size
                ++ (m.round_lots_only
                    ∷ (m.issue_classification
                        ∷ (m.issue_subtype
                            ++ (m.authenticity
                                ∷ (m.short_sale_threshold
                                    ∷ (m.ipo_flag
                                        ∷ (m.luld_tier
                                            ∷ (m.etp_flag
                                                ∷ (be32 m.etp_leverage_factor
                                                    ++ (m.inverse_indicator ∷ [])))))))))))))

abbrev pub body_stock_trading_action : StockTradingAction → List ℕ
body_stock_trading_action m = m.stock ++ (m.trading_state ∷ (m.reserved ∷ (m.reason ++ [])))

abbrev pub body_reg_sho_restriction : RegShoRestriction → List ℕ
body_reg_sho_restriction m = m.stock ++ (m.action ∷ [])

abbrev pub body_market_participant_position : MarketParticipantPosition → List ℕ
body_market_participant_position m =
    m.mpid
    ++ (m.stock
        ++ (m.primary_market_maker ∷ (m.market_maker_mode ∷ (m.market_participant_state ∷ []))))

abbrev pub body_mwcb_decline_level : MwcbDeclineLevel → List ℕ
body_mwcb_decline_level m = be64 m.level_one ++ (be64 m.level_two ++ (be64 m.level_three ++ []))

abbrev pub body_mwcb_status : MwcbStatus → List ℕ
body_mwcb_status m = m.breached_level ∷ []

abbrev pub body_ipo_quoting_period : IpoQuotingPeriod → List ℕ
body_ipo_quoting_period m =
    m.stock ++ (be32 m.release_time ++ (m.release_qualifier ∷ (be32 m.ipo_price ++ [])))

abbrev pub body_luld_auction_collar : LuldAuctionCollar → List ℕ
body_luld_auction_collar m =
    m.stock
    ++ (be32 m.reference_price
        ++ (be32 m.upper_price ++ (be32 m.lower_price ++ (be32 m.extension ++ []))))

-- The market code stands before the action in ITCH 5.0; the struct of the source has no field for it.
abbrev pub body_operational_halt : ℕ → OperationalHalt → List ℕ
body_operational_halt market_code m = m.stock ++ (market_code ∷ m.action ∷ [])

abbrev pub body_add_order : AddOrder → List ℕ
body_add_order m =
    be64 m.order_id ++ (side_code m.side ∷ (be32 m.quantity ++ (m.stock ++ (be32 m.price ++ []))))

abbrev pub body_add_order_mpid : AddOrderMpid → List ℕ
body_add_order_mpid m =
    be64 m.add_order.order_id
    ++ (side_code m.add_order.side
        ∷ (be32 m.add_order.quantity
            ++ (m.add_order.stock ++ (be32 m.add_order.price ++ (m.attribution ++ [])))))

abbrev pub body_order_executed : OrderExecuted → List ℕ
body_order_executed m = be64 m.order_id ++ (be32 m.executed ++ (be64 m.match_number ++ []))

abbrev pub body_order_executed_with_price : OrderExecutedWithPrice → List ℕ
body_order_executed_with_price m =
    be64 m.order_executed.order_id
    ++ (be32 m.order_executed.executed
        ++ (be64 m.order_executed.match_number ++ (m.printable ∷ (be32 m.execution_price ++ []))))

abbrev pub body_order_cancel : OrderCancel → List ℕ
body_order_cancel m = be64 m.order_id ++ (be32 m.canceled ++ [])

abbrev pub body_order_delete : OrderDelete → List ℕ
body_order_delete m = be64 m.order_id ++ []

abbrev pub body_order_replace : OrderReplace → List ℕ
body_order_replace m =
    be64 m.original_order_id ++ (be64 m.new_order_id ++ (be32 m.quantity ++ (be32 m.price ++ [])))

abbrev pub body_trade : Trade → List ℕ
body_trade m =
    be64 m.order_id
    ++ (side_code m.side
        ∷ (be32 m.quantity ++ (m.stock ++ (be32 m.price ++ (be64 m.match_number ++ [])))))

abbrev pub body_cross_trade : CrossTrade → List ℕ
body_cross_trade m =
    be64 m.quantity ++ (m.stock ++ (be32 m.price ++ (be64 m.match_number ++ (m.cross_type ∷ []))))

abbrev pub body_broken_trade : BrokenTrade → List ℕ
body_broken_trade m = be64 m.match_number ++ []

abbrev pub body_noii : Noii → List ℕ
body_noii m =
    be64 m.paired_quantity
    ++ (be64 m.imbalance_quantity
        ++ (m.imbalance_direction
            ∷ (m.stock
                ++ (be32 m.far_price
                    ++ (be32 m.near_price
                        ++ (be32 m.current_reference_price
                            ++ (m.cross_type ∷ (m.price_variation_indicator ∷ []))))))))

abbrev pub body_retail_price_improvement : RetailPriceImprovement → List ℕ
body_retail_price_improvement m = m.stock ++ (m.interest_flag ∷ [])

abbrev pub type_code : Message → ℕ
type_code (system_event m) = b'S'
type_code (stock_directory m) = b'R'
type_code (stock_trading_action m) = b'H'
type_code (reg_sho_restriction m) = b'Y'
type_code (market_participant_position m) = b'L'
type_code (mwcb_decline_level m) = b'V'
type_code (mwcb_status m) = b'W'
type_code (ipo_quoting_period m) = b'K'
type_code (luld_auction_collar m) = b'J'
type_code (operational_halt m) = b'h'
type_code (add_order m) = b'A'
type_code (add_order_mpid m) = b'F'
type_code (order_executed m) = b'E'
type_code (order_executed_with_price m) = b'C'
type_code (order_cancel m) = b'X'
type_code (order_delete m) = b'D'
type_code (order_replace m) = b'U'
type_code (trade m) = b'P'
type_code (cross_trade m) = b'Q'
type_code (broken_trade m) = b'B'
type_code (noii m) = b'I'
type_code (retail_price_improvement m) = b'N'

abbrev pub header_of : Message → Header
header_of (system_event m) = m.header
header_of (stock_directory m) = m.header
header_of (stock_trading_action m) = m.header
header_of (reg_sho_restriction m) = m.header
header_of (market_participant_position m) = m.header
header_of (mwcb_decline_level m) = m.header
header_of (mwcb_status m) = m.header
header_of (ipo_quoting_period m) = m.header
header_of (luld_auction_collar m) = m.header
header_of (operational_halt m) = m.header
header_of (add_order m) = m.header
header_of (add_order_mpid m) = m.add_order.header
header_of (order_executed m) = m.header
header_of (order_executed_with_price m) = m.order_executed.header
header_of (order_cancel m) = m.header
header_of (order_delete m) = m.header
header_of (order_replace m) = m.header
header_of (trade m) = m.header
header_of (cross_trade m) = m.header
header_of (broken_trade m) = m.header
header_of (noii m) = m.header
header_of (retail_price_improvement m) = m.header

-- An operational halt is given the byte of its action as its market code here.
abbrev pub body : Message → List ℕ
body (system_event m) = body_system_event m
body (stock_directory m) = body_stock_directory m
body (stock_trading_action m) = body_stock_trading_action m
body (reg_sho_restriction m) = body_reg_sho_restriction m
body (market_participant_position m) = body_market_participant_position m
body (mwcb_decline_level m) = body_mwcb_decline_level m
body (mwcb_status m) = body_mwcb_status m
body (ipo_quoting_period m) = body_ipo_quoting_period m
body (luld_auction_collar m) = body_luld_auction_collar m
body (operational_halt m) = body_operational_halt m.action m
body (add_order m) = body_add_order m
body (add_order_mpid m) = body_add_order_mpid m
body (order_executed m) = body_order_executed m
body (order_executed_with_price m) = body_order_executed_with_price m
body (order_cancel m) = body_order_cancel m
body (order_delete m) = body_order_delete m
body (order_replace m) = body_order_replace m
body (trade m) = body_trade m
body (cross_trade m) = body_cross_trade m
body (broken_trade m) = body_broken_trade m
body (noii m) = body_noii m
body (retail_price_improvement m) = body_retail_price_improvement m

abbrev pub encode : Message → List ℕ
encode m = type_code m ∷ (be_header (header_of m) ++ body m)

-- The same with a market code of its own for an operational halt.
abbrev pub encode_wire : ℕ → Message → List ℕ
encode_wire market_code (operational_halt m) =
    b'h' ∷ (be_header m.header ++ body_operational_halt market_code m)
encode_wire market_code m = encode m

-- The message with the market code where the source puts it.
abbrev pub with_market_code : ℕ → Message → Message
with_market_code market_code (operational_halt m) =
    operational_halt (record m { action = market_code })
with_market_code market_code m = m

-- What the fields of the body must fit in.
abbrev pub BodyFits : Message → Type 0
BodyFits (system_event m) = Unit {0}
BodyFits (stock_directory m) =
    (length m.stock ≡ 8)
    × IsU32 m.round_lot_size
    × (length m.issue_subtype ≡ 2)
    × IsU32 m.etp_leverage_factor
BodyFits (stock_trading_action m) = (length m.stock ≡ 8) × (length m.reason ≡ 4)
BodyFits (reg_sho_restriction m) = (length m.stock ≡ 8)
BodyFits (market_participant_position m) = (length m.mpid ≡ 4) × (length m.stock ≡ 8)
BodyFits (mwcb_decline_level m) = IsU64 m.level_one × IsU64 m.level_two × IsU64 m.level_three
BodyFits (mwcb_status m) = Unit {0}
BodyFits (ipo_quoting_period m) = (length m.stock ≡ 8) × IsU32 m.release_time × IsU32 m.ipo_price
BodyFits (luld_auction_collar m) =
    (length m.stock ≡ 8)
    × IsU32 m.reference_price
    × IsU32 m.upper_price
    × IsU32 m.lower_price
    × IsU32 m.extension
BodyFits (operational_halt m) = (length m.stock ≡ 8)
BodyFits (add_order m) = IsU64 m.order_id × IsU32 m.quantity × (length m.stock ≡ 8) × IsU32 m.price
BodyFits (add_order_mpid m) =
    IsU64 m.add_order.order_id
    × IsU32 m.add_order.quantity
    × (length m.add_order.stock ≡ 8)
    × IsU32 m.add_order.price
    × (length m.attribution ≡ 4)
BodyFits (order_executed m) = IsU64 m.order_id × IsU32 m.executed × IsU64 m.match_number
BodyFits (order_executed_with_price m) =
    IsU64 m.order_executed.order_id
    × IsU32 m.order_executed.executed
    × IsU64 m.order_executed.match_number
    × IsU32 m.execution_price
BodyFits (order_cancel m) = IsU64 m.order_id × IsU32 m.canceled
BodyFits (order_delete m) = IsU64 m.order_id
BodyFits (order_replace m) =
    IsU64 m.original_order_id × IsU64 m.new_order_id × IsU32 m.quantity × IsU32 m.price
BodyFits (trade m) =
    IsU64 m.order_id
    × IsU32 m.quantity
    × (length m.stock ≡ 8)
    × IsU32 m.price
    × IsU64 m.match_number
BodyFits (cross_trade m) =
    IsU64 m.quantity × (length m.stock ≡ 8) × IsU32 m.price × IsU64 m.match_number
BodyFits (broken_trade m) = IsU64 m.match_number
BodyFits (noii m) =
    IsU64 m.paired_quantity
    × IsU64 m.imbalance_quantity
    × (length m.stock ≡ 8)
    × IsU32 m.far_price
    × IsU32 m.near_price
    × IsU32 m.current_reference_price
BodyFits (retail_price_improvement m) = (length m.stock ≡ 8)

abbrev pub Fits : Message → Type 0
Fits m = HeaderFits (header_of m) × BodyFits m
