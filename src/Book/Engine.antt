-- ===== src/Book/Engine.antt =====
-- The public operations of `OrderBook` in src/order_book.cpp. Each returns its error and the book.
pub mod Refusal
pub mod Counters
pub mod Index
mod Tests
use stock_data_engine.Base.{
  ℕ, suc, ◌+◌, ◌-◌, ◌%◌, ◌^◌, Option, none, some, Bool, true, false, List, ltb, ◌==◌, ◌&&◌, ◌||◌,
  not, if◌then◌else◌, length, set,
}
use stock_data_engine.Itch.Messages.{Side, buy, sell}
use stock_data_engine.Book.Types.{BookError, OrderBook, Order, PriceLevel}
use stock_data_engine.Book.Lookup.{lookup_find, lookup_insert, lookup_erase}
use stock_data_engine.Book.Pool.{order_at, level_at, acquire_order, release_order}
use stock_data_engine.Book.Fifo.{append, unlink}
use stock_data_engine.Book.Tree.{level_find}
use stock_data_engine.Book.Ladder.{Ladder, level_get_or_add, level_remove}

abbrev pub is_buy : Side → Bool
is_buy buy = true
is_buy sell = false

abbrev pub ladder : OrderBook → Side → Ladder
ladder b side = record {
  pool = b.level_pool;
  root = if is_buy side then b.bid_root else b.ask_root;
}

abbrev pub with_ladder : OrderBook → Side → Ladder → OrderBook
with_ladder b buy l = record b { level_pool = l.pool; bid_root = l.root }
with_ladder b sell l = record b { level_pool = l.pool; ask_root = l.root }

abbrev pub is_some {ℓ} : {A : Type ℓ} → Option A → Bool
is_some none = false
is_some (some a) = true

abbrev pub set_level : OrderBook → ℕ → PriceLevel → OrderBook
set_level b i l = record b {
  level_pool = record (b.level_pool) { levels = set b.level_pool.levels i l };
}

abbrev pub set_orders : OrderBook → List Order → OrderBook
set_orders b os = record b { order_pool = record (b.order_pool) { orders = os } }

abbrev pub release : OrderBook → ℕ → OrderBook
release b o = record b { order_pool = release_order b.order_pool o }

abbrev pub count_of : OrderBook → ℕ → ℕ
count_of b li = (level_at b.level_pool.levels li).order_count

-- `if (l.order_count == 0) level_remove(side, li)`
unfoldable pub drop_if_empty : OrderBook → Side → ℕ → OrderBook
unfolding level_remove
drop_if_empty b side li =
    if count_of b li == 0 then with_ladder b side (level_remove (ladder b side) li) else b

-- `append(levels_[li], o)` and `++stats_.active_orders`
unfoldable pub enqueue : OrderBook → ℕ → ℕ → OrderBook
unfolding append
enqueue b li o =
    let (os, l) = append b.order_pool.orders (level_at b.level_pool.levels li) o in
    let b' = set_level (set_orders b os) li l in
    record b' {
      stats = record (b'.stats) { active_orders = (b'.stats.active_orders + 1) % 2 ^ 64 };
    }

-- The five writes to `*o` in `add`.
abbrev pub fill : OrderBook → ℕ → ℕ → Side → ℕ → ℕ → ℕ → OrderBook
fill b o id side q p li = set_orders b (
    set b.order_pool.orders o (record (order_at b.order_pool.orders o) {
      id = id;
      side = side;
      quantity = q;
      price = p;
      level = some li;
    }))

-- `add` from `lookup_insert` on.
unfoldable pub add_entry : OrderBook → ℕ → ℕ → Side → ℕ → BookError × OrderBook
unfolding drop_if_empty enqueue
add_entry b o id side li = elim (lookup_insert b.lookup id o) [
  | none ↦ (BookError.lookup_full, release (drop_if_empty b side li) o)
  | some t ↦ (BookError.none, enqueue (record b { lookup = t }) li o)
]

-- `add` from `level_get_or_add` on.
unfoldable pub add_level : OrderBook → ℕ → ℕ → Side → ℕ → ℕ → BookError × OrderBook
unfolding add_entry
add_level b o id side q p =
    let (l, found) = level_get_or_add (ladder b side) p in
    let b' = with_ladder b side l in
    elim found [
      | none ↦ (BookError.level_pool_exhausted, release b' o)
      | some li ↦ add_entry (fill b' o id side q p li) o id side li
    ]

unfoldable pub add : OrderBook → ℕ → Side → ℕ → ℕ → BookError × OrderBook
unfolding add_level
add b id side q p =
    if q == 0
    then (BookError.invalid_quantity, b)
    else if is_some (lookup_find b.lookup id)
    then (BookError.duplicate_order, b)
    else elim (acquire_order b.order_pool) [
      | none ↦ (BookError.order_pool_exhausted, b)
      | some (o, pool) ↦ add_level (record b { order_pool = pool }) o id side q p
    ]

-- `unlink`, `lookup_erase`, `release_order`, `--stats_.active_orders`, and the level if it is empty.
-- `li` and `side` are what the order held.
unfoldable pub remove_order : OrderBook → ℕ → ℕ → Side → ℕ → OrderBook
unfolding unlink drop_if_empty
remove_order b o id side li =
    let (os, l) = unlink b.order_pool.orders (level_at b.level_pool.levels li) o in
    let a = set_level (set_orders b os) li l in
    let c = release (record a { lookup = lookup_erase a.lookup id }) o in
    let d = record c {
      stats = record (c.stats) { active_orders = (c.stats.active_orders + 2 ^ 64 - 1) % 2 ^ 64 };
    } in
    drop_if_empty d side li

-- `l.total_quantity -= q; o->quantity -= q`
abbrev pub take_quantity : OrderBook → ℕ → ℕ → ℕ → OrderBook
take_quantity b o q li =
    let l = level_at b.level_pool.levels li in
    let w = order_at b.order_pool.orders o in
    let b' =
      set_level b li (record l { total_quantity = (l.total_quantity + 2 ^ 64 - q) % 2 ^ 64 }) in
    set_orders b' (set b.order_pool.orders o (record w { quantity = w.quantity - q }))

-- The order's level is always there; at -1 the source would be undefined.
unfoldable pub reduce : OrderBook → ℕ → ℕ → BookError × OrderBook
unfolding remove_order
reduce b o q =
    let w = order_at b.order_pool.orders o in
    if q == 0 || ltb w.quantity q then (BookError.invalid_quantity, b) else elim w.level [
      | none ↦ (BookError.none, b)
      | some li ↦
          let b' = take_quantity b o q li in
          (BookError.none, if w.quantity - q == 0 then remove_order b' o w.id w.side li else b')
    ]

unfoldable pub execute : OrderBook → ℕ → ℕ → BookError × OrderBook
unfolding reduce
execute b id q = elim (lookup_find b.lookup id) [
  | none ↦ (BookError.unknown_order, b)
  | some o ↦ reduce b o q
]

unfoldable pub cancel : OrderBook → ℕ → ℕ → BookError × OrderBook
unfolding execute
cancel b id q = execute b id q

unfoldable pub erase : OrderBook → ℕ → BookError × OrderBook
unfolding remove_order
erase b id = elim (lookup_find b.lookup id) [
  | none ↦ (BookError.unknown_order, b)
  | some o ↦
      let w = order_at b.order_pool.orders o in
      elim w.level [
        | none ↦ (BookError.none, b)
        | some li ↦ (BookError.none, remove_order b o id w.side li)
      ]
]

abbrev pub is_none : BookError → Bool
is_none BookError.none = true
is_none _ = false

-- `p != old->price && level_find(root, p) == none && free_level_ == none`
abbrev pub lacks_level : OrderBook → Order → ℕ → Bool
lacks_level b old p =
    not (p == old.price)
    && (not (
          is_some (
            level_find (suc (length b.level_pool.levels)) b.level_pool.levels
              (ladder b old.side).root p))
        && not (is_some b.level_pool.free_level))

abbrev pub replace_with : BookError × OrderBook → ℕ → Side → ℕ → ℕ → BookError × OrderBook
replace_with (e, b) id side q p = if is_none e then add b id side q p else (e, b)

unfoldable pub replace : OrderBook → ℕ → ℕ → ℕ → ℕ → BookError × OrderBook
unfolding add erase
replace b old_id new_id q p = elim (lookup_find b.lookup old_id) [
  | none ↦ (BookError.unknown_order, b)
  | some o ↦
      let old = order_at b.order_pool.orders o in
      if q == 0
      then (BookError.invalid_quantity, b)
      else if not (new_id == old_id) && is_some (lookup_find b.lookup new_id)
      then (BookError.duplicate_order, b)
      else if lacks_level b old p
      then (BookError.level_pool_exhausted, b)
      else replace_with (erase b old_id) new_id old.side q p
]
