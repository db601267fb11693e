-- ===== src/Book/Tests.antt =====
-- Runs of the order book of src/order_book.cpp on short sequences of calls, read off by `depth`.
use stock_data_engine.Base.{arith, ℕ, ◌≡◌, refl, List, [], ◌∷◌}
use stock_data_engine.Itch.Messages.{buy, Message, order_delete}
use stock_data_engine.Book.Types.{OrderBook, Quote}
use stock_data_engine.Book.Lookup.{hash, lookup_find, lookup_insert, lookup_erase}
use stock_data_engine.Book.Pool.{acquire_order, release_order}
use stock_data_engine.Book.Tree.{level_find}
use stock_data_engine.Book.Ladder.{level_get_or_add, level_remove}
use stock_data_engine.Book.Engine.{add, execute, erase, replace}
use stock_data_engine.Book.Feed.Accounting.{CountsOnce, process-counts}
use stock_data_engine.Book.Feed.{process, fresh_book, depth}

data Call : Type 0 where
  add_call : ℕ → ℕ → ℕ → Call
  execute_call : ℕ → ℕ → Call
  erase_call : ℕ → Call
  replace_call : ℕ → ℕ → ℕ → ℕ → Call

run : OrderBook → List Call → OrderBook
run b [] = b
run b (add_call id q p ∷ calls) = run (add b id buy q p).1 calls
run b (execute_call id q ∷ calls) = run (execute b id q).1 calls
run b (erase_call id ∷ calls) = run (erase b id).1 calls
run b (replace_call o n q p ∷ calls) = run (replace b o n q p).1 calls

-- Six ascending prices make the tree rotate; the seventh order joins a level.
abbrev ascending : List Call
ascending =
    add_call 1 10 100
    ∷ add_call 2 10 101
    ∷ add_call 3 10 102
    ∷ add_call 4 5 103
    ∷ add_call 5 6 104
    ∷ add_call 6 7 105
    ∷ add_call 7 1 100
    ∷ []

abbrev quote : ℕ → ℕ → ℕ → Quote
quote p q n = record { price = p; quantity = q; orders = n }

depth-ascending :
    depth (run (fresh_book 8 8 []) ascending) buy 10
    ≡ quote 105 7 1
      ∷ quote 104 6 1
      ∷ quote 103 5 1
      ∷ quote 102 10 1
      ∷ quote 101 10 1
      ∷ quote 100 11 2
      ∷ []
unfolding run add execute erase replace depth lookup_find hash lookup_insert lookup_erase
    acquire_order release_order level_get_or_add level_remove level_find
depth-ascending = refl

depth_after :
    depth
      (run (run (fresh_book 8 8 []) ascending) (
        erase_call 4
        ∷ execute_call 1 9
        ∷ execute_call 1 1
        ∷ replace_call 6 9 50 101
        ∷ erase_call 3
        ∷ []))
      buy
      10
    ≡ quote 104 6 1 ∷ quote 101 60 2 ∷ quote 100 1 1 ∷ []
unfolding run add execute erase replace depth lookup_find hash lookup_insert lookup_erase
    acquire_order release_order level_get_or_add level_remove level_find
depth_after = refl

abbrev unknown_delete : Message
unknown_delete = order_delete (record {
  header = record { stock_locate = 0; tracking_number = 0; timestamp = 0 };
  order_id = 5;
})

process-counts_example :
    CountsOnce
      (process (fresh_book 2 2 []) unknown_delete).0
      (fresh_book 2 2 []).stats
      (process (fresh_book 2 2 []) unknown_delete).1.stats
process-counts_example = process-counts (fresh_book 2 2 []) unknown_delete (omega arith)
