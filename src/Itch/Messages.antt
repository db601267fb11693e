-- ===== src/Itch/Messages.antt =====
-- include/itch/messages.hpp: the 22 message types, the variant over them, and the parse result.
-- A `char` is the number of its byte, a fixed array of `char` the list of them.
use stock_data_engine.Base.{
  ℕ, zero, suc, if◌then◌else◌, Bool, true, false, List, length, get_or, take, ◌==◌,
}

pub data Side : Type 0 where
  buy sell : Side

pub record Header : Type 0 where
  pub stock_locate : ℕ
  pub tracking_number : ℕ
  pub timestamp : ℕ

pub record SystemEvent : Type 0 where
  pub header : Header
  pub event_code : ℕ

pub record StockDirectory : Type 0 where
  pub header : Header
  pub stock : List ℕ
  pub market_category : ℕ
  pub financial_status : ℕ
  pub round_lot_size : ℕ
  pub round_lots_only : ℕ
  pub issue_classification : ℕ
  pub issue_subtype : List ℕ
  pub authenticity : ℕ
  pub short_sale_threshold : ℕ
  pub ipo_flag : ℕ
  pub luld_tier : ℕ
  pub etp_flag : ℕ
  pub etp_leverage_factor : ℕ
  pub inverse_indicator : ℕ

pub record StockTradingAction : Type 0 where
  pub header : Header
  pub stock : List ℕ
  pub trading_state : ℕ
  pub reserved : ℕ
  pub reason : List ℕ

pub record RegShoRestriction : Type 0 where
  pub header : Header
  pub stock : List ℕ
  pub action : ℕ

pub record MarketParticipantPosition : Type 0 where
  pub header : Header
  pub mpid : List ℕ
  pub stock : List ℕ
  pub primary_market_maker : ℕ
  pub market_maker_mode : ℕ
  pub market_participant_state : ℕ

pub record MwcbDeclineLevel : Type 0 where
  pub header : Header
  pub level_one : ℕ
  pub level_two : ℕ
  pub level_three : ℕ

pub record MwcbStatus : Type 0 where
  pub header : Header
  pub breached_level : ℕ

pub record IpoQuotingPeriod : Type 0 where
  pub header : Header
  pub stock : List ℕ
  pub release_time : ℕ
  pub release_qualifier : ℕ
  pub ipo_price : ℕ

pub record LuldAuctionCollar : Type 0 where
  pub header : Header
  pub stock : List ℕ
  pub reference_price : ℕ
  pub upper_price : ℕ
  pub lower_price : ℕ
  pub extension : ℕ

pub record OperationalHalt : Type 0 where
  pub header : Header
  pub stock : List ℕ
  pub action : ℕ

pub record AddOrder : Type 0 where
  pub header : Header
  pub order_id : ℕ
  pub side : Side
  pub quantity : ℕ
  pub stock : List ℕ
  pub price : ℕ

-- `AddOrderMpid : AddOrder`
pub record AddOrderMpid : Type 0 where
  pub add_order : AddOrder
  pub attribution : List ℕ

pub record OrderExecuted : Type 0 where
  pub header : Header
  pub order_id : ℕ
  pub executed : ℕ
  pub match_number : ℕ

-- `OrderExecutedWithPrice : OrderExecuted`
pub record OrderExecutedWithPrice : Type 0 where
  pub order_executed : OrderExecuted
  pub printable : ℕ
  pub execution_price : ℕ

pub record OrderCancel : Type 0 where
  pub header : Header
  pub order_id : ℕ
  pub canceled : ℕ

pub record OrderDelete : Type 0 where
  pub header : Header
  pub order_id : ℕ

pub record OrderReplace : Type 0 where
  pub header : Header
  pub original_order_id : ℕ
  pub new_order_id : ℕ
  pub quantity : ℕ
  pub price : ℕ

pub record Trade : Type 0 where
  pub header : Header
  pub order_id : ℕ
  pub side : Side
  pub quantity : ℕ
  pub stock : List ℕ
  pub price : ℕ
  pub match_number : ℕ

pub record CrossTrade : Type 0 where
  pub header : Header
  pub quantity : ℕ
  pub stock : List ℕ
  pub price : ℕ
  pub match_number : ℕ
  pub cross_type : ℕ

pub record BrokenTrade : Type 0 where
  pub header : Header
  pub match_number : ℕ

pub record Noii : Type 0 where
  pub header : Header
  pub paired_quantity : ℕ
  pub imbalance_quantity : ℕ
  pub imbalance_direction : ℕ
  pub stock : List ℕ
  pub far_price : ℕ
  pub near_price : ℕ
  pub current_reference_price : ℕ
  pub cross_type : ℕ
  pub price_variation_indicator : ℕ

pub record RetailPriceImprovement : Type 0 where
  pub header : Header
  pub stock : List ℕ
  pub interest_flag : ℕ

pub data Message : Type 0 where
  system_event : SystemEvent → Message
  stock_directory : StockDirectory → Message
  stock_trading_action : StockTradingAction → Message
  reg_sho_restriction : RegShoRestriction → Message
  market_participant_position : MarketParticipantPosition → Message
  mwcb_decline_level : MwcbDeclineLevel → Message
  mwcb_status : MwcbStatus → Message
  ipo_quoting_period : IpoQuotingPeriod → Message
  luld_auction_collar : LuldAuctionCollar → Message
  operational_halt : OperationalHalt → Message
  add_order : AddOrder → Message
  add_order_mpid : AddOrderMpid → Message
  order_executed : OrderExecuted → Message
  order_executed_with_price : OrderExecutedWithPrice → Message
  order_cancel : OrderCancel → Message
  order_delete : OrderDelete → Message
  order_replace : OrderReplace → Message
  trade : Trade → Message
  cross_trade : CrossTrade → Message
  broken_trade : BrokenTrade → Message
  noii : Noii → Message
  retail_price_improvement : RetailPriceImprovement → Message

pub data ParseError : Type 0 where
  none empty unsupported_type wrong_length invalid_side : ParseError

pub record ParseResult : Type 0 where
  pub error : ParseError
  pub message : Message

-- `explicit operator bool`
abbrev pub is_none : ParseError → Bool
is_none none = true
is_none empty = false
is_none unsupported_type = false
is_none wrong_length = false
is_none invalid_side = false

abbrev pub is_ok : ParseResult → Bool
is_ok r = is_none r.error

-- `n` counts down over trailing spaces.
trimmed : List ℕ → ℕ → ℕ
trimmed stock zero = 0
trimmed stock (suc n) = if get_or stock n 0 == b' ' then trimmed stock n else suc n

unfoldable pub stock_view : List ℕ → List ℕ
unfolding trimmed
stock_view stock = take (trimmed stock (length stock)) stock
