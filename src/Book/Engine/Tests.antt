-- ===== src/Book/Engine/Tests.antt =====
-- `add` of src/order_book.cpp on a book whose level pool is used up.
use stock_data_engine.Base.{
  true, ℕ, ◌∷◌, ◌==◌, if◌then◌else◌, ◌≡◌, refl, sym, none, some, some_eq, subst, [], arith,
  replicate, ◌∙◌,
}
use stock_data_engine.Itch.Messages.{buy}
use stock_data_engine.Book.Types.{BookError, OrderBook, default_order, default_level, default_slot}
use stock_data_engine.Book.Pool.{order_at, acquire_order}
use stock_data_engine.Book.Lookup.{lookup_find, lookup_insert, entry, hash}
use stock_data_engine.Book.Lookup.Table.{IsTable, fresh-IsTable, fresh-Empty}
use stock_data_engine.Book.Ladder.{level_get_or_add}
use stock_data_engine.Book.Engine.{add, erase}
use stock_data_engine.Book.Engine.Index.{erase-lookup_find}
use stock_data_engine.Book.Lookup.Insert.{lookup_insert-adds}
use stock_data_engine.Book.Lookup.Find.{lookup_find-Absent}
use stock_data_engine.Book.Engine.Refusal.{NextIsReset, add-refused}
use stock_data_engine.Book.Feed.{fresh_orders}

abbrev no_level : OrderBook
no_level = record {
  order_pool = record { orders = fresh_orders 2 2; free_order = some 0 };
  level_pool = record { levels = []; free_level = none; active_levels = 0 };
  lookup = replicate 8 default_slot;
  bid_root = none;
  ask_root = none;
  symbol = [];
  stats = record { accepted = 0; ignored = 0; rejected = 0; active_orders = 0 };
}

no_level-refuses : (add no_level 7 buy 10 100).0 ≡ BookError.level_pool_exhausted
unfolding add lookup_find hash acquire_order level_get_or_add
no_level-refuses = refl

no_level-NextIsReset : NextIsReset no_level.order_pool
no_level-NextIsReset i e =
    subst
      (λ k.
        order_at (fresh_orders 2 2) k
        ≡ record default_order { free_next = (order_at (fresh_orders 2 2) k).free_next })
      (some_eq e) refl

add-refused_example : (add no_level 7 buy 10 100).1 ≡ no_level
add-refused_example =
    add-refused no_level 7 buy 10 100 0 (fresh-IsTable 8 (omega arith)) (omega arith)
      (fresh-Empty 8 0) no_level-NextIsReset (λ e. ground (arith, sym no_level-refuses ∙ e))

-- The order under the identifier 42 is the only one of its level.
abbrev one_order : OrderBook
one_order = record {
  order_pool = record {
    orders =
        record default_order { id = 42; price = 100; quantity = 10; level = some 0; active = true }
        ∷ [];
    free_order = none;
  };
  level_pool = record {
    levels =
        record default_level {
          price = 100;
          total_quantity = 10;
          order_count = 1;
          head = some 0;
          tail = some 0;
          active = true;
        }
        ∷ [];
    free_level = none;
    active_levels = 1;
  };
  lookup = default_slot ∷ default_slot ∷ entry 42 0 ∷ default_slot ∷ [];
  bid_root = some 0;
  ask_root = none;
  symbol = [];
  stats = record { accepted = 1; ignored = 0; rejected = 0; active_orders = 1 };
}

insert_one : lookup_insert (replicate 4 default_slot) 42 0 ≡ some one_order.lookup
unfolding lookup_insert hash
insert_one = refl

one_order-IsTable : IsTable one_order.lookup
one_order-IsTable =
    let (t, e, v, size, finds) =
      lookup_insert-adds (replicate 4 default_slot) 42 0 0 (fresh-IsTable 4 (omega arith))
        (lookup_find-Absent (replicate 4 default_slot) 42 (fresh-IsTable 4 (omega arith))
          (λ x hx occ. ground (arith, fresh-Empty 4 x)))
        (omega arith) (fresh-Empty 4 0) in
    subst IsTable (some_eq (sym e ∙ insert_one)) v

find_one : lookup_find one_order.lookup 42 ≡ some 0
unfolding lookup_find hash
find_one = refl

erase-lookup_find_example :
    IsTable (erase one_order 42).1.lookup
    × ((k : ℕ)
        → lookup_find (erase one_order 42).1.lookup k
          ≡ (if 42 == k then none else lookup_find one_order.lookup k))
erase-lookup_find_example =
    erase-lookup_find one_order 42 0 one_order-IsTable (omega arith) refl
      (λ o e lost. ground (arith, some_eq (sym find_one ∙ e), lost))
