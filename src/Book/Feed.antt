-- ===== src/Book/Feed.antt =====
-- The constructor of `OrderBook`, `process` with its symbol filter and counters, and the queries of
-- src/order_book.cpp.
pub mod Accounting
use stock_data_engine.Base.{
  ℕ, zero, suc, ◌+◌, ◌-◌, ◌*◌, ◌^◌, ◌%◌, max, Option, none, some, Bool, true, false, List, [], ◌∷◌,
  ltb, leb, ◌==◌, ◌&&◌, ◌||◌, if◌then◌else◌, length, take, replicate,
}
use stock_data_engine.Itch.Messages.{
  Side, Message, stock_view, add_order, add_order_mpid, order_executed, order_executed_with_price,
  order_cancel, order_delete, order_replace, system_event,
}
use stock_data_engine.Book.Types.{
  BookError, OrderBook, Order, PriceLevel, BookStats, Quote, default_order, default_level,
  default_slot,
}
use stock_data_engine.Book.Pool.{order_at, level_at}
use stock_data_engine.Book.Lookup.{lookup_find}
use stock_data_engine.Book.Tree.{extreme}
use stock_data_engine.Book.Ladder.{depth_from, quote_of}
use stock_data_engine.Book.Engine.{add, execute, cancel, erase, replace, ladder, is_buy}

-- `free_next` of position `i` among `n`.
abbrev pub next_free : ℕ → ℕ → Option ℕ
next_free n i = if ltb (i + 1) n then some (i + 1) else none

-- The last `k` of `n` positions, linked up.
abbrev pub fresh_orders : ℕ → ℕ → List Order
fresh_orders n zero = []
fresh_orders n (suc k) =
    record default_order { free_next = next_free n (n - suc k) } ∷ fresh_orders n k

abbrev pub fresh_levels : ℕ → ℕ → List PriceLevel
fresh_levels n zero = []
fresh_levels n (suc k) =
    record default_level { free_next = next_free n (n - suc k) } ∷ fresh_levels n k

-- `validate_capacity`: the values that it does not refuse.
abbrev pub is_capacity : ℕ → Bool
is_capacity n = leb 1 n && leb n (2 ^ 31 - 1)

abbrev pub fresh_book : ℕ → ℕ → List ℕ → OrderBook
fresh_book max_orders max_levels symbol = record {
  order_pool = record { orders = fresh_orders max_orders max_orders; free_order = some 0 };
  level_pool = record {
    levels = fresh_levels max_levels max_levels;
    free_level = some 0;
    active_levels = 0;
  };
  lookup = replicate (max 8 (max_orders * 2 + 1)) default_slot;
  bid_root = none;
  ask_root = none;
  symbol = symbol;
  stats = record { accepted = 0; ignored = 0; rejected = 0; active_orders = 0 };
}

-- `none` is `std::invalid_argument`.
unfoldable pub init : ℕ → ℕ → List ℕ → Option OrderBook
init max_orders max_levels symbol =
    if is_capacity max_orders && is_capacity max_levels
    then (if ltb 8 (length symbol) then none else some (fresh_book max_orders max_levels symbol))
    else none

-- `memcmp(...) == 0` over the characters of both lists.
unfoldable pub same_bytes : List ℕ → List ℕ → Bool
same_bytes [] [] = true
same_bytes [] (y ∷ ys) = false
same_bytes (x ∷ xs) [] = false
same_bytes (x ∷ xs) (y ∷ ys) = x == y && same_bytes xs ys

unfoldable pub symbol_matches : List ℕ → List ℕ → Bool
unfolding same_bytes
symbol_matches symbol stock =
    length symbol == 0
    || (length (stock_view stock) == length symbol
        && same_bytes symbol (take (length symbol) stock))

unfoldable pub filtered_add : OrderBook → List ℕ → ℕ → Side → ℕ → ℕ → BookError × OrderBook
filtered_add b stock id side q p =
    if symbol_matches b.symbol stock then add b id side q p else (BookError.wrong_symbol, b)

-- The visit of `process`: the messages that touch the book; all others leave it.
unfoldable pub dispatch : OrderBook → Message → BookError × OrderBook
unfolding filtered_add
dispatch b (system_event m) = (BookError.none, b)
dispatch b (add_order m) = filtered_add b m.stock m.order_id m.side m.quantity m.price
dispatch b (add_order_mpid m) =
    filtered_add b m.add_order.stock m.add_order.order_id m.add_order.side m.add_order.quantity
      m.add_order.price
dispatch b (order_executed m) = execute b m.order_id m.executed
dispatch b (order_executed_with_price m) =
    execute b m.order_executed.order_id m.order_executed.executed
dispatch b (order_cancel m) = cancel b m.order_id m.canceled
dispatch b (order_delete m) = erase b m.order_id
dispatch b (order_replace m) = replace b m.original_order_id m.new_order_id m.quantity m.price
dispatch b _ = (BookError.none, b)

abbrev pub accept : BookStats → BookStats
accept s = record s { accepted = (s.accepted + 1) % 2 ^ 64 }

abbrev pub ignore : BookStats → BookStats
ignore s = record s { ignored = (s.ignored + 1) % 2 ^ 64 }

abbrev pub reject : BookStats → BookStats
reject s = record s { rejected = (s.rejected + 1) % 2 ^ 64 }

unfoldable pub count : BookError → BookStats → BookStats
count BookError.none s = accept s
count BookError.wrong_symbol s = ignore s
count BookError.unknown_order s = ignore s
count _ s = reject s

unfoldable pub process : OrderBook → Message → BookError × OrderBook
unfolding dispatch count
process b m = let (e, b') = dispatch b m in (e, record b' { stats = count e b'.stats })

abbrev pub empty_quote : Quote
empty_quote = record { price = 0; quantity = 0; orders = 0 }

abbrev quote_at : List PriceLevel → Option ℕ → Quote
quote_at ls none = empty_quote
quote_at ls (some i) = quote_of (level_at ls i)

unfoldable pub best_bid : OrderBook → Quote
unfolding extreme
best_bid b = quote_at b.level_pool.levels (extreme b.level_pool.levels b.bid_root true)

unfoldable pub best_ask : OrderBook → Quote
unfolding extreme
best_ask b = quote_at b.level_pool.levels (extreme b.level_pool.levels b.ask_root false)

-- The levels written to `out`; the source returns how many they are. `n` is `out.size()`.
unfoldable pub depth : OrderBook → Side → ℕ → List Quote
unfolding extreme depth_from
depth b side n =
    let ls = b.level_pool.levels in
    depth_from n ls (is_buy side) (extreme ls (ladder b side).root (is_buy side))

unfoldable pub find : OrderBook → ℕ → Option Order
find b id = elim (lookup_find b.lookup id) [
  | none ↦ none
  | some o ↦ some (order_at b.order_pool.orders o)
]
