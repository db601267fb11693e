-- ===== src/Itch/Parser/MarketReads.antt =====
-- How many bytes the readers of market-wide messages of src/parser.cpp need.
use stock_data_engine.Base.{◌+◌}
use stock_data_engine.Itch.Messages.{Header}
use stock_data_engine.Itch.Parser.Market.{
  read_system_event, read_stock_directory, read_stock_trading_action, read_reg_sho_restriction,
  read_market_participant_position, read_mwcb_decline_level, read_mwcb_status,
  read_ipo_quoting_period, read_luld_auction_collar, read_operational_halt, read_cross_trade,
  read_broken_trade, read_noii, read_retail_price_improvement,
}
use stock_data_engine.Itch.Parser.Reads.{
  Reads, Reads-pure, Reads-bind, u8-Reads, u32-Reads, u64-Reads, chars-Reads,
}

pub read_system_event-Reads : (h : Header) → Reads (read_system_event h) (1 + 0)
unfolding read_system_event
read_system_event-Reads h = Reads-bind u8-Reads (λ event_code. Reads-pure _)

pub read_stock_directory-Reads :
    (h : Header)
    → Reads
        (read_stock_directory h)
        (8 + (1 + (1 + (4 + (1 + (1 + (2 + (1 + (1 + (1 + (1 + (1 + (4 + (1 + 0))))))))))))))
unfolding read_stock_directory
read_stock_directory-Reads h = Reads-bind (chars-Reads 8) (λ stock.
    Reads-bind u8-Reads (λ market_category. Reads-bind u8-Reads (λ financial_status.
      Reads-bind u32-Reads (λ round_lot_size. Reads-bind u8-Reads (λ round_lots_only.
        Reads-bind u8-Reads (λ issue_classification. Reads-bind (chars-Reads 2) (λ issue_subtype.
          Reads-bind u8-Reads (λ authenticity. Reads-bind u8-Reads (λ short_sale_threshold.
            Reads-bind u8-Reads (λ ipo_flag. Reads-bind u8-Reads (λ luld_tier.
              Reads-bind u8-Reads (λ etp_flag. Reads-bind u32-Reads (λ etp_leverage_factor.
                Reads-bind u8-Reads (λ inverse_indicator. Reads-pure _))))))))))))))

pub read_stock_trading_action-Reads :
    (h : Header) → Reads (read_stock_trading_action h) (8 + (1 + (1 + (4 + 0))))
unfolding read_stock_trading_action
read_stock_trading_action-Reads h = Reads-bind (chars-Reads 8) (λ stock.
    Reads-bind u8-Reads (λ trading_state.
      Reads-bind u8-Reads (λ reserved. Reads-bind (chars-Reads 4) (λ reason. Reads-pure _))))

pub read_reg_sho_restriction-Reads : (h : Header) → Reads (read_reg_sho_restriction h) (8 + (1 + 0))
unfolding read_reg_sho_restriction
read_reg_sho_restriction-Reads h =
    Reads-bind (chars-Reads 8) (λ stock. Reads-bind u8-Reads (λ action. Reads-pure _))

pub read_market_participant_position-Reads :
    (h : Header) → Reads (read_market_participant_position h) (4 + (8 + (1 + (1 + (1 + 0)))))
unfolding read_market_participant_position
read_market_participant_position-Reads h = Reads-bind (chars-Reads 4) (λ mpid.
    Reads-bind (chars-Reads 8) (λ stock. Reads-bind u8-Reads (λ primary_market_maker.
      Reads-bind u8-Reads
        (λ market_maker_mode. Reads-bind u8-Reads (λ market_participant_state. Reads-pure _)))))

pub read_mwcb_decline_level-Reads :
    (h : Header) → Reads (read_mwcb_decline_level h) (8 + (8 + (8 + 0)))
unfolding read_mwcb_decline_level
read_mwcb_decline_level-Reads h = Reads-bind u64-Reads (λ level_one.
    Reads-bind u64-Reads (λ level_two. Reads-bind u64-Reads (λ level_three. Reads-pure _)))

pub read_mwcb_status-Reads : (h : Header) → Reads (read_mwcb_status h) (1 + 0)
unfolding read_mwcb_status
read_mwcb_status-Reads h = Reads-bind u8-Reads (λ breached_level. Reads-pure _)

pub read_ipo_quoting_period-Reads :
    (h : Header) → Reads (read_ipo_quoting_period h) (8 + (4 + (1 + (4 + 0))))
unfolding read_ipo_quoting_period
read_ipo_quoting_period-Reads h = Reads-bind (chars-Reads 8) (λ stock.
    Reads-bind u32-Reads (λ release_time.
      Reads-bind u8-Reads (λ release_qualifier. Reads-bind u32-Reads (λ ipo_price. Reads-pure _))))

pub read_luld_auction_collar-Reads :
    (h : Header) → Reads (read_luld_auction_collar h) (8 + (4 + (4 + (4 + (4 + 0)))))
unfolding read_luld_auction_collar
read_luld_auction_collar-Reads h = Reads-bind (chars-Reads 8) (λ stock.
    Reads-bind u32-Reads (λ reference_price. Reads-bind u32-Reads (λ upper_price.
      Reads-bind u32-Reads (λ lower_price. Reads-bind u32-Reads (λ extension. Reads-pure _)))))

pub read_operational_halt-Reads : (h : Header) → Reads (read_operational_halt h) (8 + (1 + 0))
unfolding read_operational_halt
read_operational_halt-Reads h =
    Reads-bind (chars-Reads 8) (λ stock. Reads-bind u8-Reads (λ action. Reads-pure _))

pub read_cross_trade-Reads :
    (h : Header) → Reads (read_cross_trade h) (8 + (8 + (4 + (8 + (1 + 0)))))
unfolding read_cross_trade
read_cross_trade-Reads h = Reads-bind u64-Reads (λ quantity. Reads-bind (chars-Reads 8) (λ stock.
    Reads-bind u32-Reads (λ price.
      Reads-bind u64-Reads (λ match_number. Reads-bind u8-Reads (λ cross_type. Reads-pure _)))))

pub read_broken_trade-Reads : (h : Header) → Reads (read_broken_trade h) (8 + 0)
unfolding read_broken_trade
read_broken_trade-Reads h = Reads-bind u64-Reads (λ match_number. Reads-pure _)

pub read_noii-Reads :
    (h : Header) → Reads (read_noii h) (8 + (8 + (1 + (8 + (4 + (4 + (4 + (1 + (1 + 0)))))))))
unfolding read_noii
read_noii-Reads h = Reads-bind u64-Reads (λ paired_quantity.
    Reads-bind u64-Reads (λ imbalance_quantity. Reads-bind u8-Reads (λ imbalance_direction.
      Reads-bind (chars-Reads 8) (λ stock. Reads-bind u32-Reads (λ far_price.
        Reads-bind u32-Reads (λ near_price. Reads-bind u32-Reads (λ current_reference_price.
          Reads-bind u8-Reads
            (λ cross_type. Reads-bind u8-Reads (λ price_variation_indicator. Reads-pure _)))))))))

pub read_retail_price_improvement-Reads :
    (h : Header) → Reads (read_retail_price_improvement h) (8 + (1 + 0))
unfolding read_retail_price_improvement
read_retail_price_improvement-Reads h =
    Reads-bind (chars-Reads 8) (λ stock. Reads-bind u8-Reads (λ interest_flag. Reads-pure _))
