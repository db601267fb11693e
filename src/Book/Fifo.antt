-- ===== src/Book/Fifo.antt =====
-- The intrusive queue of a price level in src/order_book.cpp: `append` and `unlink`. Each takes the
-- level `l` by reference and a position in `orders_`.
pub mod Distinct
pub mod Links
pub mod Queue
pub mod Append
pub mod Unlink
mod Tests
use stock_data_engine.Base.{ℕ, ◌+◌, ◌-◌, ◌%◌, ◌^◌, Option, none, some, List, set}
use stock_data_engine.Book.Types.{Order, PriceLevel}
use stock_data_engine.Book.Pool.{order_at}

abbrev pub set_next : List Order → ℕ → Option ℕ → List Order
set_next os i n = set os i (record (order_at os i) { next = n })

abbrev pub set_prev : List Order → ℕ → Option ℕ → List Order
set_prev os i p = set os i (record (order_at os i) { prev = p })

abbrev pub set_links : List Order → ℕ → Option ℕ → Option ℕ → List Order
set_links os i p n = set os i (record (order_at os i) { prev = p; next = n })

abbrev link_tail : List Order → PriceLevel → ℕ → List Order × PriceLevel
link_tail os l o = elim l.tail [
  | none ↦ (os, record l { head = some o })
  | some t ↦ (set_next os t (some o), l)
]

unfoldable pub append : List Order → PriceLevel → ℕ → List Order × PriceLevel
append os l o =
    let (os', l') = link_tail (set_links os o l.tail none) l o in
    (
      os',
      record l' {
        tail = some o;
        total_quantity = (l.total_quantity + (order_at os' o).quantity) % 2 ^ 64;
        order_count = (l.order_count + 1) % 2 ^ 32;
      },
    )

abbrev unlink_prev : List Order → PriceLevel → ℕ → List Order × PriceLevel
unlink_prev os l o = elim (order_at os o).prev [
  | none ↦ (os, record l { head = (order_at os o).next })
  | some p ↦ (set_next os p (order_at os o).next, l)
]

abbrev unlink_next : List Order → PriceLevel → ℕ → List Order × PriceLevel
unlink_next os l o = elim (order_at os o).next [
  | none ↦ (os, record l { tail = (order_at os o).prev })
  | some n ↦ (set_prev os n (order_at os o).prev, l)
]

unfoldable pub unlink : List Order → PriceLevel → ℕ → List Order × PriceLevel
unlink os l o =
    let (os₁, l₁) = unlink_prev os l o in
    let (os₂, l₂) = unlink_next os₁ l₁ o in
    (
      os₂,
      record l₂ {
        total_quantity = (l.total_quantity + 2 ^ 64 - (order_at os₂ o).quantity) % 2 ^ 64;
        order_count = (l.order_count + 2 ^ 32 - 1) % 2 ^ 32;
      },
    )
