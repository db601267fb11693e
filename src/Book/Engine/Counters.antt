-- ===== src/Book/Engine/Counters.antt =====
-- The operations of src/order_book.cpp leave the message counters alone; only `process` counts.
use stock_data_engine.Base.{
  ℕ, ◌≡◌, refl, ◌∙◌, arith, Option-cases, Bool-cases, inl, inr, Bool, not, ◌&&◌, ◌==◌, true, false,
  if◌then◌else◌,
}
use stock_data_engine.Itch.Messages.{Side, buy, sell}
use stock_data_engine.Book.Types.{BookError, OrderBook}
use stock_data_engine.Book.Ladder.{Ladder, level_get_or_add, level_remove}
use stock_data_engine.Book.Lookup.{lookup_find, lookup_insert}
use stock_data_engine.Book.Pool.{acquire_order, order_at}
use stock_data_engine.Book.Engine.{
  with_ladder, ladder, drop_if_empty, enqueue, add_entry, add_level, add, remove_order, fill,
  reduce, execute, erase, replace, replace_with, take_quantity, is_none, lacks_level, is_some,
}

abbrev pub SameCounters : OrderBook → OrderBook → Type 0
SameCounters b c =
    (c.stats.accepted ≡ b.stats.accepted)
    × (c.stats.ignored ≡ b.stats.ignored)
    × (c.stats.rejected ≡ b.stats.rejected)

with_ladder-SameCounters :
    (b : OrderBook) (side : Side) (l : Ladder) → SameCounters b (with_ladder b side l)
with_ladder-SameCounters b buy l = (refl, refl, refl)
with_ladder-SameCounters b sell l = (refl, refl, refl)

drop_if_empty-SameCounters :
    (b : OrderBook) (side : Side) (li : ℕ) → SameCounters b (drop_if_empty b side li)
unfolding drop_if_empty
drop_if_empty-SameCounters b side li =
    ground (arith, with_ladder-SameCounters b side (level_remove (ladder b side) li))

enqueue-SameCounters : (b : OrderBook) (li o : ℕ) → SameCounters b (enqueue b li o)
unfolding enqueue
enqueue-SameCounters b li o = (refl, refl, refl)

remove_order-SameCounters :
    (b : OrderBook) (o id : ℕ) (side : Side) (li : ℕ) → SameCounters b (remove_order b o id side li)
unfolding remove_order
remove_order-SameCounters b o id side li = drop_if_empty-SameCounters _ side li

add_entry-SameCounters :
    (b : OrderBook) (o id : ℕ) (side : Side) (li : ℕ) → SameCounters b (add_entry b o id side li).1
unfolding add_entry
add_entry-SameCounters b o id side li = elim (Option-cases (lookup_insert b.lookup id o)) [
  | inl e ↦ rw (e, add_entry) (drop_if_empty-SameCounters b side li)
  | inr (t, e) ↦ rw (e, add_entry) (enqueue-SameCounters (record b { lookup = t }) li o)
]

add_level-SameCounters :
    (b : OrderBook) (o id : ℕ) (side : Side) (q p : ℕ)
    → SameCounters b (add_level b o id side q p).1
unfolding add_level
add_level-SameCounters b o id side q p =
    let (x, y, z) = with_ladder-SameCounters b side (level_get_or_add (ladder b side) p).0 in
    elim (Option-cases (level_get_or_add (ladder b side) p).1) [
      | inl e ↦ rw (e, add_level) (x, y, z)
      | inr (li, e) ↦
          let (x', y', z') =
            add_entry-SameCounters
              (fill (with_ladder b side (level_get_or_add (ladder b side) p).0) o id side q p li) o
              id side li in
          rw (e, add_level) (x' ∙ x, y' ∙ y, z' ∙ z)
    ]

pub SameCounters-trans :
    (a b c : OrderBook) → SameCounters a b → SameCounters b c → SameCounters a c
SameCounters-trans a b c (x, y, z) (x', y', z') = (x' ∙ x, y' ∙ y, z' ∙ z)

pub add-SameCounters :
    (b : OrderBook) (id : ℕ) (side : Side) (q p : ℕ) → SameCounters b (add b id side q p).1
unfolding add
add-SameCounters b id side q p = elim (Bool-cases (q == 0)) [
  | inl e ↦ rw (e, add) (refl, refl, refl)
  | inr e ↦ elim (Option-cases (lookup_find b.lookup id)) [
    | inr (o, found) ↦ rw (e, found, add) (refl, refl, refl)
    | inl new ↦ elim (Option-cases (acquire_order b.order_pool)) [
      | inl full ↦ rw (e, new, full, add) (refl, refl, refl)
      | inr ((o, pool), taken) ↦
          rw (e, new, taken, add)
            (add_level-SameCounters (record b { order_pool = pool }) o id side q p)
    ]
  ]
]

reduce-SameCounters : (b : OrderBook) (o q : ℕ) → SameCounters b (reduce b o q).1
unfolding reduce
reduce-SameCounters b o q = ground (
  arith,
  λ (li : ℕ).
      remove_order-SameCounters (take_quantity b o q li) o (order_at b.order_pool.orders o).id
        (order_at b.order_pool.orders o).side li,
)

pub execute-SameCounters : (b : OrderBook) (id q : ℕ) → SameCounters b (execute b id q).1
unfolding execute
execute-SameCounters b id q = ground (arith, λ (o : ℕ). reduce-SameCounters b o q)

pub erase-SameCounters : (b : OrderBook) (id : ℕ) → SameCounters b (erase b id).1
unfolding erase
erase-SameCounters b id =
    ground (
      arith,
      λ (o li : ℕ). remove_order-SameCounters b o id (order_at b.order_pool.orders o).side li,
    )

replace_with-SameCounters :
    (b : OrderBook) (r : BookError × OrderBook) (id : ℕ) (side : Side) (q p : ℕ)
    → SameCounters b r.1
    → SameCounters b (replace_with r id side q p).1
replace_with-SameCounters b (e, c) id side q p same = elim (Bool-cases (is_none e)) [
  | inl ok ↦
      rw ok (SameCounters-trans b c (add c id side q p).1 same (add-SameCounters c id side q p))
  | inr bad ↦ rw bad same
]

either-SameCounters :
    (b : OrderBook) (t : Bool) (x y : BookError × OrderBook)
    → SameCounters b x.1
    → SameCounters b y.1
    → SameCounters b (if t then x else y).1
either-SameCounters b true x y h k = h
either-SameCounters b false x y h k = k

pub replace-SameCounters :
    (b : OrderBook) (old_id new_id q p : ℕ) → SameCounters b (replace b old_id new_id q p).1
unfolding replace
replace-SameCounters b old_id new_id q p = elim (Option-cases (lookup_find b.lookup old_id)) [
  | inl e ↦ rw (e, replace) (refl, refl, refl)
  | inr (o, e) ↦
      let old = order_at b.order_pool.orders o in
      let put = replace_with (erase b old_id) new_id old.side q p in
      let done =
        replace_with-SameCounters b (erase b old_id) new_id old.side q p
          (erase-SameCounters b old_id) in
      let kept : SameCounters b b = (refl, refl, refl) in
      rw (e, replace)
        (either-SameCounters b (q == 0) (BookError.invalid_quantity, b) _ kept
          (either-SameCounters b (not (new_id == old_id) && is_some (lookup_find b.lookup new_id))
            (BookError.duplicate_order, b) _ kept
            (either-SameCounters b (lacks_level b old p) (BookError.level_pool_exhausted, b) put
              kept done)))
]
