-- ===== src/Book/Types.antt =====
-- The data of include/book/order_book.hpp. A pointer into `orders_` and an index into `levels_` are
-- optional positions: `nullptr` and -1 are `none`.
use stock_data_engine.Base.{ℕ, Option, Bool, false, List}
use stock_data_engine.Itch.Messages.{Side, buy}

pub data BookError : Type 0 where
  none duplicate_order unknown_order invalid_quantity order_pool_exhausted lookup_full : BookError
  level_pool_exhausted wrong_symbol : BookError

pub record PriceLevel : Type 0 where
  pub price : ℕ
  pub total_quantity : ℕ
  pub order_count : ℕ
  pub head : Option ℕ
  pub tail : Option ℕ
  pub left : Option ℕ
  pub right : Option ℕ
  pub parent : Option ℕ
  pub free_next : Option ℕ
  pub height : ℕ
  pub active : Bool

pub record Order : Type 0 where
  pub id : ℕ
  pub price : ℕ
  pub quantity : ℕ
  pub side : Side
  pub level : Option ℕ
  pub prev : Option ℕ
  pub next : Option ℕ
  pub free_next : Option ℕ
  pub active : Bool

-- `PriceLevel{}`
abbrev pub default_level : PriceLevel
default_level = record {
  price = 0;
  total_quantity = 0;
  order_count = 0;
  head = Option.none;
  tail = Option.none;
  left = Option.none;
  right = Option.none;
  parent = Option.none;
  free_next = Option.none;
  height = 1;
  active = false;
}

-- `Order{}`
abbrev pub default_order : Order
default_order = record {
  id = 0;
  price = 0;
  quantity = 0;
  side = buy;
  level = Option.none;
  prev = Option.none;
  next = Option.none;
  free_next = Option.none;
  active = false;
}

-- `Quote` and `DepthLevel` have the same fields.
pub record Quote : Type 0 where
  pub price : ℕ
  pub quantity : ℕ
  pub orders : ℕ

pub data SlotState : Type 0 where
  empty occupied tombstone : SlotState

pub record LookupSlot : Type 0 where
  pub id : ℕ
  pub order : Option ℕ
  pub state : SlotState

-- `LookupSlot{}`
abbrev pub default_slot : LookupSlot
default_slot = record { id = 0; order = Option.none; state = empty }

-- `BookStats`, but for `active_levels`, which stands with the level pool.
pub record BookStats : Type 0 where
  pub accepted : ℕ
  pub ignored : ℕ
  pub rejected : ℕ
  pub active_orders : ℕ

-- `orders_` and `free_order_`
pub record OrderPool : Type 0 where
  pub orders : List Order
  pub free_order : Option ℕ

-- `levels_`, `free_level_` and `stats_.active_levels`
pub record LevelPool : Type 0 where
  pub levels : List PriceLevel
  pub free_level : Option ℕ
  pub active_levels : ℕ

-- The first `symbol_length_` characters of `symbol_` are `symbol`.
pub record OrderBook : Type 0 where
  pub order_pool : OrderPool
  pub level_pool : LevelPool
  pub lookup : List LookupSlot
  pub bid_root : Option ℕ
  pub ask_root : Option ℕ
  pub symbol : List ℕ
  pub stats : BookStats
