-- ===== src/Itch/Parser/MarketTrips.antt =====
-- Each body reader inverts the encoder of its message, and each body has its length.
use stock_data_engine.Base.{ℕ, ◌≡◌, some, [], ◌∷◌, ◌++◌, length, length-append, arith}
use stock_data_engine.Itch.Messages.{
  SystemEvent, StockDirectory, StockTradingAction, RegShoRestriction, MarketParticipantPosition,
  MwcbDeclineLevel, MwcbStatus, IpoQuotingPeriod, LuldAuctionCollar, OperationalHalt, CrossTrade,
  BrokenTrade, Noii, RetailPriceImprovement, system_event, stock_directory, stock_trading_action,
  reg_sho_restriction, market_participant_position, mwcb_decline_level, mwcb_status,
  ipo_quoting_period, luld_auction_collar, operational_halt, cross_trade, broken_trade, noii,
  retail_price_improvement,
}
use stock_data_engine.Itch.Parser.Read.{◌>>=◌}
use stock_data_engine.Itch.Parser.Reply.{succeeded}
use stock_data_engine.Itch.Parser.Fields.{be32, be64, u8-cons, u32-be32, u64-be64, chars-append}
use stock_data_engine.Itch.Parser.Encode.{
  BodyFits, body_system_event, body_stock_directory, body_stock_trading_action,
  body_reg_sho_restriction, body_market_participant_position, body_mwcb_decline_level,
  body_mwcb_status, body_ipo_quoting_period, body_luld_auction_collar, body_operational_halt,
  body_cross_trade, body_broken_trade, body_noii, body_retail_price_improvement,
}
use stock_data_engine.Itch.Parser.Market.{
  read_system_event, read_stock_directory, read_stock_trading_action, read_reg_sho_restriction,
  read_market_participant_position, read_mwcb_decline_level, read_mwcb_status,
  read_ipo_quoting_period, read_luld_auction_collar, read_operational_halt, read_cross_trade,
  read_broken_trade, read_noii, read_retail_price_improvement,
}

pub read_system_event-body :
    (m : SystemEvent)
    → BodyFits (system_event m)
    → read_system_event m.header (body_system_event m) ≡ some (succeeded (system_event m), [])
unfolding read_system_event
read_system_event-body m f = simp (u8-cons, ◌>>=◌)

pub length-body_system_event :
    (m : SystemEvent) → BodyFits (system_event m) → length (body_system_event m) ≡ 1
length-body_system_event m f = omega arith

pub read_stock_directory-body :
    (m : StockDirectory)
    → BodyFits (stock_directory m)
    → read_stock_directory m.header (body_stock_directory m)
      ≡ some (succeeded (stock_directory m), [])
unfolding read_stock_directory
read_stock_directory-body m f = simp (u8-cons, u32-be32, chars-append, f.0, f.1, f.2, f.3, ◌>>=◌)

pub length-body_stock_directory :
    (m : StockDirectory) → BodyFits (stock_directory m) → length (body_stock_directory m) ≡ 28
length-body_stock_directory m f = omega (
  arith,
  length-append m.stock (
      m.market_category
      ∷ (m.financial_status
          ∷ (be32 m.round_lot_size
              ++ (m.round_lots_only
                  ∷ (m.issue_classification
                      ∷ (m.issue_subtype
                          ++ (m.authenticity
                              ∷ (m.short_sale_threshold
                                  ∷ (m.ipo_flag
                                      ∷ (m.luld_tier
                                          ∷ (m.etp_flag
                                              ∷ (be32 m.etp_leverage_factor
                                                  ++ (m.inverse_indicator ∷ []))))))))))))),
  length-append m.issue_subtype (
      m.authenticity
      ∷ (m.short_sale_threshold
          ∷ (m.ipo_flag
              ∷ (m.luld_tier
                  ∷ (m.etp_flag ∷ (be32 m.etp_leverage_factor ++ (m.inverse_indicator ∷ []))))))),
)

pub read_stock_trading_action-body :
    (m : StockTradingAction)
    → BodyFits (stock_trading_action m)
    → read_stock_trading_action m.header (body_stock_trading_action m)
      ≡ some (succeeded (stock_trading_action m), [])
unfolding read_stock_trading_action
read_stock_trading_action-body m f = simp (u8-cons, chars-append, f.0, f.1, ◌>>=◌)

pub length-body_stock_trading_action :
    (m : StockTradingAction)
    → BodyFits (stock_trading_action m)
    → length (body_stock_trading_action m) ≡ 14
length-body_stock_trading_action m f = omega (
  arith,
  length-append m.stock (m.trading_state ∷ (m.reserved ∷ (m.reason ++ []))),
  length-append m.reason ([]),
)

pub read_reg_sho_restriction-body :
    (m : RegShoRestriction)
    → BodyFits (reg_sho_restriction m)
    → read_reg_sho_restriction m.header (body_reg_sho_restriction m)
      ≡ some (succeeded (reg_sho_restriction m), [])
unfolding read_reg_sho_restriction
read_reg_sho_restriction-body m f = simp (u8-cons, chars-append, f, ◌>>=◌)

pub length-body_reg_sho_restriction :
    (m : RegShoRestriction)
    → BodyFits (reg_sho_restriction m)
    → length (body_reg_sho_restriction m) ≡ 9
length-body_reg_sho_restriction m f = omega (arith, length-append m.stock (m.action ∷ []))

pub read_market_participant_position-body :
    (m : MarketParticipantPosition)
    → BodyFits (market_participant_position m)
    → read_market_participant_position m.header (body_market_participant_position m)
      ≡ some (succeeded (market_participant_position m), [])
unfolding read_market_participant_position
read_market_participant_position-body m f = simp (u8-cons, chars-append, f.0, f.1, ◌>>=◌)

pub length-body_market_participant_position :
    (m : MarketParticipantPosition)
    → BodyFits (market_participant_position m)
    → length (body_market_participant_position m) ≡ 15
length-body_market_participant_position m f = omega (
  arith,
  length-append m.mpid (
      m.stock
      ++ (m.primary_market_maker ∷ (m.market_maker_mode ∷ (m.market_participant_state ∷ [])))),
  length-append m.stock
      (m.primary_market_maker ∷ (m.market_maker_mode ∷ (m.market_participant_state ∷ []))),
)

pub read_mwcb_decline_level-body :
    (m : MwcbDeclineLevel)
    → BodyFits (mwcb_decline_level m)
    → read_mwcb_decline_level m.header (body_mwcb_decline_level m)
      ≡ some (succeeded (mwcb_decline_level m), [])
unfolding read_mwcb_decline_level
read_mwcb_decline_level-body m f = simp (u64-be64, f.0, f.1, f.2, ◌>>=◌)

pub length-body_mwcb_decline_level :
    (m : MwcbDeclineLevel)
    → BodyFits (mwcb_decline_level m)
    → length (body_mwcb_decline_level m) ≡ 24
length-body_mwcb_decline_level m f = omega arith

pub read_mwcb_status-body :
    (m : MwcbStatus)
    → BodyFits (mwcb_status m)
    → read_mwcb_status m.header (body_mwcb_status m) ≡ some (succeeded (mwcb_status m), [])
unfolding read_mwcb_status
read_mwcb_status-body m f = simp (u8-cons, ◌>>=◌)

pub length-body_mwcb_status :
    (m : MwcbStatus) → BodyFits (mwcb_status m) → length (body_mwcb_status m) ≡ 1
length-body_mwcb_status m f = omega arith

pub read_ipo_quoting_period-body :
    (m : IpoQuotingPeriod)
    → BodyFits (ipo_quoting_period m)
    → read_ipo_quoting_period m.header (body_ipo_quoting_period m)
      ≡ some (succeeded (ipo_quoting_period m), [])
unfolding read_ipo_quoting_period
read_ipo_quoting_period-body m f = simp (u8-cons, u32-be32, chars-append, f.0, f.1, f.2, ◌>>=◌)

pub length-body_ipo_quoting_period :
    (m : IpoQuotingPeriod)
    → BodyFits (ipo_quoting_period m)
    → length (body_ipo_quoting_period m) ≡ 17
length-body_ipo_quoting_period m f = omega (
  arith,
  length-append m.stock (be32 m.release_time ++ (m.release_qualifier ∷ (be32 m.ipo_price ++ []))),
)

pub read_luld_auction_collar-body :
    (m : LuldAuctionCollar)
    → BodyFits (luld_auction_collar m)
    → read_luld_auction_collar m.header (body_luld_auction_collar m)
      ≡ some (succeeded (luld_auction_collar m), [])
unfolding read_luld_auction_collar
read_luld_auction_collar-body m f = simp (u32-be32, chars-append, f.0, f.1, f.2, f.3, f.4, ◌>>=◌)

pub length-body_luld_auction_collar :
    (m : LuldAuctionCollar)
    → BodyFits (luld_auction_collar m)
    → length (body_luld_auction_collar m) ≡ 24
length-body_luld_auction_collar m f = omega (
  arith,
  length-append m.stock (
      be32 m.reference_price
      ++ (be32 m.upper_price ++ (be32 m.lower_price ++ (be32 m.extension ++ [])))),
)

pub read_operational_halt-body :
    (market_code : ℕ) (m : OperationalHalt)
    → BodyFits (operational_halt m)
    → read_operational_halt m.header (body_operational_halt market_code m)
      ≡ some (succeeded (operational_halt (record m { action = market_code })), m.action ∷ [])
unfolding read_operational_halt
read_operational_halt-body market_code m f = simp (u8-cons, chars-append, f, ◌>>=◌)

pub length-body_operational_halt :
    (market_code : ℕ) (m : OperationalHalt)
    → BodyFits (operational_halt m)
    → length (body_operational_halt market_code m) ≡ 10
length-body_operational_halt market_code m f =
    omega (arith, length-append m.stock (market_code ∷ m.action ∷ []))

pub read_cross_trade-body :
    (m : CrossTrade)
    → BodyFits (cross_trade m)
    → read_cross_trade m.header (body_cross_trade m) ≡ some (succeeded (cross_trade m), [])
unfolding read_cross_trade
read_cross_trade-body m f =
    simp (u8-cons, u32-be32, u64-be64, chars-append, f.0, f.1, f.2, f.3, ◌>>=◌)

pub length-body_cross_trade :
    (m : CrossTrade) → BodyFits (cross_trade m) → length (body_cross_trade m) ≡ 29
length-body_cross_trade m f =
    omega
      (arith, length-append m.stock (be32 m.price ++ (be64 m.match_number ++ (m.cross_type ∷ []))))

pub read_broken_trade-body :
    (m : BrokenTrade)
    → BodyFits (broken_trade m)
    → read_broken_trade m.header (body_broken_trade m) ≡ some (succeeded (broken_trade m), [])
unfolding read_broken_trade
read_broken_trade-body m f = simp (u64-be64, f, ◌>>=◌)

pub length-body_broken_trade :
    (m : BrokenTrade) → BodyFits (broken_trade m) → length (body_broken_trade m) ≡ 8
length-body_broken_trade m f = omega arith

pub read_noii-body :
    (m : Noii)
    → BodyFits (noii m)
    → read_noii m.header (body_noii m) ≡ some (succeeded (noii m), [])
unfolding read_noii
read_noii-body m f =
    simp (u8-cons, u32-be32, u64-be64, chars-append, f.0, f.1, f.2, f.3, f.4, f.5, ◌>>=◌)

pub length-body_noii : (m : Noii) → BodyFits (noii m) → length (body_noii m) ≡ 39
length-body_noii m f = omega (
  arith,
  length-append m.stock (
      be32 m.far_price
      ++ (be32 m.near_price
          ++ (be32 m.current_reference_price
              ++ (m.cross_type ∷ (m.price_variation_indicator ∷ []))))),
)

pub read_retail_price_improvement-body :
    (m : RetailPriceImprovement)
    → BodyFits (retail_price_improvement m)
    → read_retail_price_improvement m.header (body_retail_price_improvement m)
      ≡ some (succeeded (retail_price_improvement m), [])
unfolding read_retail_price_improvement
read_retail_price_improvement-body m f = simp (u8-cons, chars-append, f, ◌>>=◌)

pub length-body_retail_price_improvement :
    (m : RetailPriceImprovement)
    → BodyFits (retail_price_improvement m)
    → length (body_retail_price_improvement m) ≡ 9
length-body_retail_price_improvement m f =
    omega (arith, length-append m.stock (m.interest_flag ∷ []))
