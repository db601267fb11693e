-- ===== src/Book/Engine/Index.antt =====
-- What `erase` of src/order_book.cpp does to the lookup table of the book.
use stock_data_engine.Base.{
  ℕ, ◌<◌, ◌≡◌, ◌≢◌, refl, none, some, length, arith, Option-cases, inl, inr, Bool-cases, ◌==◌,
  if◌then◌else◌, ==→eq,
}
use stock_data_engine.Itch.Messages.{Side, buy, sell}
use stock_data_engine.Book.Types.{OrderBook}
use stock_data_engine.Book.Pool.{order_at}
use stock_data_engine.Book.Ladder.{Ladder, level_remove}
use stock_data_engine.Book.Lookup.{lookup_find, lookup_erase}
use stock_data_engine.Book.Lookup.Table.{IsTable, Empty}
use stock_data_engine.Book.Lookup.Erase.{lookup_erase-removes}
use stock_data_engine.Book.Engine.{with_ladder, ladder, drop_if_empty, remove_order, erase}

with_ladder-table :
    (b : OrderBook) (side : Side) (l : Ladder) → (with_ladder b side l).lookup ≡ b.lookup
with_ladder-table b buy l = refl
with_ladder-table b sell l = refl

drop_if_empty-table :
    (b : OrderBook) (side : Side) (li : ℕ) → (drop_if_empty b side li).lookup ≡ b.lookup
unfolding drop_if_empty
drop_if_empty-table b side li =
    ground (arith, with_ladder-table b side (level_remove (ladder b side) li))

remove_order-lookup_erase :
    (b : OrderBook) (o id : ℕ) (side : Side) (li : ℕ)
    → (remove_order b o id side li).lookup ≡ lookup_erase b.lookup id
unfolding remove_order
remove_order-lookup_erase b o id side li = drop_if_empty-table _ side li

-- On a well-formed lookup table with an empty slot, and when the order found under the identifier has
-- its level: after `erase`, whatever it returns, the table is well formed, the identifier is not
-- found, and every other one is found as before.
pub erase-lookup_find :
    (b : OrderBook) (id i : ℕ)
    → IsTable b.lookup
    → i < length b.lookup
    → Empty b.lookup i
    → ((o : ℕ) → lookup_find b.lookup id ≡ some o → (order_at b.order_pool.orders o).level ≢ none)
    → IsTable (erase b id).1.lookup
      × ((k : ℕ)
          → lookup_find (erase b id).1.lookup k
            ≡ (if id == k then none else lookup_find b.lookup k))
unfolding erase
erase-lookup_find b id i v hi empty_i levelled = elim (Option-cases (lookup_find b.lookup id)) [
  | inl e ↦
      rw (e, erase)
        (
          v,
          λ k. elim (Bool-cases (id == k)) [ inl q ↦ rw (q, ← ==→eq id k q) e | inr q ↦ rw q refl ],
        )
  | inr (o, e) ↦ elim (Option-cases (order_at b.order_pool.orders o).level) [
    | inl lost ↦ absurd (levelled o e lost)
    | inr (li, at_level) ↦
        let (valid, size, finds) = lookup_erase-removes b.lookup id i v hi empty_i in
        let same = remove_order-lookup_erase b o id (order_at b.order_pool.orders o).side li in
        rw (e, at_level, erase, same) (valid, finds)
  ]
]
