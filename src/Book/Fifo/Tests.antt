-- ===== src/Book/Fifo/Tests.antt =====
-- The queue operations of src/order_book.cpp on a level with two orders and a third to come.
use stock_data_engine.Base.{refl, some, List, [], ◌∷◌, arith}
use stock_data_engine.Book.Types.{Order, PriceLevel, default_order, default_level}
use stock_data_engine.Book.Fifo.{append, unlink}
use stock_data_engine.Book.Fifo.Queue.{IsQueue, AllSameButLinks, SameButQueue}
use stock_data_engine.Book.Fifo.Append.{append-IsQueue}
use stock_data_engine.Book.Fifo.Unlink.{unlink-IsQueue}

-- The order at 2 trades first, then the one at 0; the one at 1 is in no queue.
abbrev orders : List Order
orders =
    record default_order { id = 11; quantity = 5; prev = some 2 }
    ∷ record default_order { id = 12; quantity = 7 }
    ∷ record default_order { id = 13; quantity = 9; next = some 0 }
    ∷ []

abbrev level : PriceLevel
level = record default_level { total_quantity = 14; order_count = 2; head = some 2; tail = some 0 }

level-IsQueue : IsQueue orders level (2 ∷ 0 ∷ [])
level-IsQueue = record {
  links = (omega arith, refl, refl, (omega arith, refl, refl, tt));
  distinct = (((λ e. ground (arith, e)), tt), (tt, tt));
  head_is = refl;
  tail_is = refl;
  total = omega arith;
  count = refl;
}

append-IsQueue_example :
    IsQueue (append orders level 1).0 (append orders level 1).1 (2 ∷ 0 ∷ 1 ∷ [])
    × AllSameButLinks orders (append orders level 1).0
    × SameButQueue level (append orders level 1).1
append-IsQueue_example =
    append-IsQueue orders level 1 (2 ∷ 0 ∷ []) level-IsQueue (omega arith)
      ((λ e. ground (arith, e)), ((λ e. ground (arith, e)), tt))

unlink-IsQueue_example :
    IsQueue (unlink orders level 2).0 (unlink orders level 2).1 (0 ∷ [])
    × AllSameButLinks orders (unlink orders level 2).0
    × SameButQueue level (unlink orders level 2).1
unlink-IsQueue_example = unlink-IsQueue orders level 2 [] (0 ∷ []) level-IsQueue (omega arith)
