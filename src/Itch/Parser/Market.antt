-- ===== src/Itch/Parser/Market.antt =====
-- The cases of the switch of `parse_message` in src/parser.cpp that read market-wide messages,
-- from 'S' to 'h', and 'Q' to 'N'.
use stock_data_engine.Itch.Messages.{Header, Message, ParseResult}
use stock_data_engine.Itch.Parser.Read.{Reader, ◌>>=◌, pure, u8, u32, u64, chars}
use stock_data_engine.Itch.Parser.Reply.{succeeded}

unfoldable pub read_system_event : Header → Reader ParseResult
read_system_event h = do
  event_code ← u8
  pure (succeeded (Message.system_event (record { header = h; event_code = event_code })))

unfoldable pub read_stock_directory : Header → Reader ParseResult
read_stock_directory h = do
  stock ← chars 8
  market_category ← u8
  financial_status ← u8
  round_lot_size ← u32
  round_lots_only ← u8
  issue_classification ← u8
  issue_subtype ← chars 2
  authenticity ← u8
  short_sale_threshold ← u8
  ipo_flag ← u8
  luld_tier ← u8
  etp_flag ← u8
  etp_leverage_factor ← u32
  inverse_indicator ← u8
  pure (
      succeeded (
        Message.stock_directory (record {
          header = h;
          stock = stock;
          market_category = market_category;
          financial_status = financial_status;
          round_lot_size = round_lot_size;
          round_lots_only = round_lots_only;
          issue_classification = issue_classification;
          issue_subtype = issue_subtype;
          authenticity = authenticity;
          short_sale_threshold = short_sale_threshold;
          ipo_flag = ipo_flag;
          luld_tier = luld_tier;
          etp_flag = etp_flag;
          etp_leverage_factor = etp_leverage_factor;
          inverse_indicator = inverse_indicator;
        })))

unfoldable pub read_stock_trading_action : Header → Reader ParseResult
read_stock_trading_action h = do
  stock ← chars 8
  trading_state ← u8
  reserved ← u8
  reason ← chars 4
  pure (
      succeeded (
        Message.stock_trading_action (record {
          header = h;
          stock = stock;
          trading_state = trading_state;
          reserved = reserved;
          reason = reason;
        })))

unfoldable pub read_reg_sho_restriction : Header → Reader ParseResult
read_reg_sho_restriction h = do
  stock ← chars 8
  action ← u8
  pure (
      succeeded
        (Message.reg_sho_restriction (record { header = h; stock = stock; action = action })))

unfoldable pub read_market_participant_position : Header → Reader ParseResult
read_market_participant_position h = do
  mpid ← chars 4
  stock ← chars 8
  primary_market_maker ← u8
  market_maker_mode ← u8
  market_participant_state ← u8
  pure (
      succeeded (
        Message.market_participant_position (record {
          header = h;
          mpid = mpid;
          stock = stock;
          primary_market_maker = primary_market_maker;
          market_maker_mode = market_maker_mode;
          market_participant_state = market_participant_state;
        })))

unfoldable pub read_mwcb_decline_level : Header → Reader ParseResult
read_mwcb_decline_level h = do
  level_one ← u64
  level_two ← u64
  level_three ← u64
  pure (
      succeeded (
        Message.mwcb_decline_level (record {
          header = h;
          level_one = level_one;
          level_two = level_two;
          level_three = level_three;
        })))

unfoldable pub read_mwcb_status : Header → Reader ParseResult
read_mwcb_status h = do
  breached_level ← u8
  pure (succeeded (Message.mwcb_status (record { header = h; breached_level = breached_level })))

unfoldable pub read_ipo_quoting_period : Header → Reader ParseResult
read_ipo_quoting_period h = do
  stock ← chars 8
  release_time ← u32
  release_qualifier ← u8
  ipo_price ← u32
  pure (
      succeeded (
        Message.ipo_quoting_period (record {
          header = h;
          stock = stock;
          release_time = release_time;
          release_qualifier = release_qualifier;
          ipo_price = ipo_price;
        })))

unfoldable pub read_luld_auction_collar : Header → Reader ParseResult
read_luld_auction_collar h = do
  stock ← chars 8
  reference_price ← u32
  upper_price ← u32
  lower_price ← u32
  extension ← u32
  pure (
      succeeded (
        Message.luld_auction_collar (record {
          header = h;
          stock = stock;
          reference_price = reference_price;
          upper_price = upper_price;
          lower_price = lower_price;
          extension = extension;
        })))

unfoldable pub read_operational_halt : Header → Reader ParseResult
read_operational_halt h = do
  stock ← chars 8
  action ← u8
  pure
      (succeeded (Message.operational_halt (record { header = h; stock = stock; action = action })))

unfoldable pub read_cross_trade : Header → Reader ParseResult
read_cross_trade h = do
  quantity ← u64
  stock ← chars 8
  price ← u32
  match_number ← u64
  cross_type ← u8
  pure (
      succeeded (
        Message.cross_trade (record {
          header = h;
          quantity = quantity;
          stock = stock;
          price = price;
          match_number = match_number;
          cross_type = cross_type;
        })))

unfoldable pub read_broken_trade : Header → Reader ParseResult
read_broken_trade h = do
  match_number ← u64
  pure (succeeded (Message.broken_trade (record { header = h; match_number = match_number })))

unfoldable pub read_noii : Header → Reader ParseResult
read_noii h = do
  paired_quantity ← u64
  imbalance_quantity ← u64
  imbalance_direction ← u8
  stock ← chars 8
  far_price ← u32
  near_price ← u32
  current_reference_price ← u32
  cross_type ← u8
  price_variation_indicator ← u8
  pure (
      succeeded (
        Message.noii (record {
          header = h;
          paired_quantity = paired_quantity;
          imbalance_quantity = imbalance_quantity;
          imbalance_direction = imbalance_direction;
          stock = stock;
          far_price = far_price;
          near_price = near_price;
          current_reference_price = current_reference_price;
          cross_type = cross_type;
          price_variation_indicator = price_variation_indicator;
        })))

unfoldable pub read_retail_price_improvement : Header → Reader ParseResult
read_retail_price_improvement h = do
  stock ← chars 8
  interest_flag ← u8
  pure (
      succeeded (
        Message.retail_price_improvement
          (record { header = h; stock = stock; interest_flag = interest_flag })))
