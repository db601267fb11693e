-- ===== src/Book/Pool.antt =====
-- The free lists of src/order_book.cpp: `acquire_order`, `release_order`, `level_acquire` and
-- `level_release`.
use stock_data_engine.Base.{ℕ, ◌+◌, ◌-◌, ◌%◌, ◌^◌, Option, none, some, true, List, get_or, set}
use stock_data_engine.Book.Types.{
  Order, PriceLevel, OrderPool, LevelPool, default_order, default_level,
}

abbrev pub order_at : List Order → ℕ → Order
order_at os i = get_or os i default_order

abbrev pub level_at : List PriceLevel → ℕ → PriceLevel
level_at ls i = get_or ls i default_level

-- `nullptr` is `none`.
unfoldable pub acquire_order : OrderPool → Option (ℕ × OrderPool)
acquire_order p = elim p.free_order [
  | none ↦ none
  | some i ↦ some (
    i,
    record {
      orders = set p.orders i (record default_order { active = true });
      free_order = (order_at p.orders i).free_next;
    },
  )
]

unfoldable pub release_order : OrderPool → ℕ → OrderPool
release_order p i = record {
  orders = set p.orders i (record default_order { free_next = p.free_order });
  free_order = some i;
}

unfoldable pub level_acquire : LevelPool → ℕ → Option (ℕ × LevelPool)
level_acquire p price = elim p.free_level [
  | none ↦ none
  | some i ↦ some (
    i,
    record {
      levels = set p.levels i (record default_level { price = price; active = true });
      free_level = (level_at p.levels i).free_next;
      active_levels = (p.active_levels + 1) % 2 ^ 64;
    },
  )
]

unfoldable pub level_release : LevelPool → ℕ → LevelPool
level_release p i = record {
  levels = set p.levels i (record default_level { free_next = p.free_level });
  free_level = some i;
  active_levels = (p.active_levels + 2 ^ 64 - 1) % 2 ^ 64;
}
