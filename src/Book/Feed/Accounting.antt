-- ===== src/Book/Feed/Accounting.antt =====
-- `process` of src/order_book.cpp counts every message once.
use stock_data_engine.Base.{ℕ, List, ◌+◌, ◌^◌, ◌<◌, ◌≡◌, ◌≢◌, ◌⊎◌, inl, inr, refl, arith}
use stock_data_engine.Itch.Messages.{
  Message, Side, add_order, add_order_mpid, order_executed, order_executed_with_price, order_cancel,
  order_delete, order_replace,
}
use stock_data_engine.Book.Types.{BookError, OrderBook, BookStats}
use stock_data_engine.Book.Engine.{cancel}
use stock_data_engine.Book.Engine.Counters.{
  SameCounters, add-SameCounters, execute-SameCounters, erase-SameCounters, replace-SameCounters,
}
use stock_data_engine.Book.Feed.{dispatch, process, count, filtered_add}

filtered_add-SameCounters :
    (b : OrderBook) (stock : List ℕ) (id : ℕ) (side : Side) (q p : ℕ)
    → SameCounters b (filtered_add b stock id side q p).1
unfolding filtered_add
filtered_add-SameCounters b stock id side q p = ground (arith, add-SameCounters b id side q p)

dispatch-SameCounters : (b : OrderBook) (m : Message) → SameCounters b (dispatch b m).1
unfolding dispatch cancel
dispatch-SameCounters b (add_order m) =
    filtered_add-SameCounters b m.stock m.order_id m.side m.quantity m.price
dispatch-SameCounters b (add_order_mpid m) =
    filtered_add-SameCounters b m.add_order.stock m.add_order.order_id m.add_order.side
      m.add_order.quantity m.add_order.price
dispatch-SameCounters b (order_executed m) = execute-SameCounters b m.order_id m.executed
dispatch-SameCounters b (order_executed_with_price m) =
    execute-SameCounters b m.order_executed.order_id m.order_executed.executed
dispatch-SameCounters b (order_cancel m) = execute-SameCounters b m.order_id m.canceled
dispatch-SameCounters b (order_delete m) = erase-SameCounters b m.order_id
dispatch-SameCounters b (order_replace m) =
    replace-SameCounters b m.original_order_id m.new_order_id m.quantity m.price
dispatch-SameCounters b _ = (refl, refl, refl)

-- The number of messages counted.
abbrev pub counted : BookStats → ℕ
counted s = s.accepted + s.ignored + s.rejected

-- The three counters grow by these numbers.
abbrev pub Grows : ℕ → ℕ → ℕ → BookStats → BookStats → Type 0
Grows a i r s s' =
    (s'.accepted ≡ s.accepted + a) × (s'.ignored ≡ s.ignored + i) × (s'.rejected ≡ s.rejected + r)

-- One of the three, by the error: accepted, ignored, or rejected.
abbrev pub CountsOnce : BookError → BookStats → BookStats → Type 0
CountsOnce e s s' =
    ((e ≡ BookError.none) × Grows 1 0 0 s s')
    ⊎ ((((e ≡ BookError.wrong_symbol) ⊎ (e ≡ BookError.unknown_order)) × Grows 0 1 0 s s')
        ⊎ ((e ≢ BookError.none)
            × (e ≢ BookError.wrong_symbol)
            × (e ≢ BookError.unknown_order)
            × Grows 0 0 1 s s'))

-- The state before may be any with the same counters.
count-CountsOnce :
    (e : BookError) (t s : BookStats)
    → counted t + 1 < 2 ^ 64
    → Grows 0 0 0 t s
    → CountsOnce e t (count e s)
unfolding count
count-CountsOnce BookError.none t s small same = inl (refl, ground arith)
count-CountsOnce BookError.wrong_symbol t s small same = inr (inl (inl refl, ground arith))
count-CountsOnce BookError.unknown_order t s small same = inr (inl (inr refl, ground arith))
count-CountsOnce BookError.duplicate_order t s small same =
    inr (inr ((λ q. cc q), (λ q. cc q), (λ q. cc q), ground arith))
count-CountsOnce BookError.invalid_quantity t s small same =
    inr (inr ((λ q. cc q), (λ q. cc q), (λ q. cc q), ground arith))
count-CountsOnce BookError.order_pool_exhausted t s small same =
    inr (inr ((λ q. cc q), (λ q. cc q), (λ q. cc q), ground arith))
count-CountsOnce BookError.lookup_full t s small same =
    inr (inr ((λ q. cc q), (λ q. cc q), (λ q. cc q), ground arith))
count-CountsOnce BookError.level_pool_exhausted t s small same =
    inr (inr ((λ q. cc q), (λ q. cc q), (λ q. cc q), ground arith))

-- As long as the counters do not wrap, `process` counts every message exactly once, whatever it does
-- to the book: it adds one to `accepted` and nothing to the other two when it returns no error, one
-- to `ignored` and nothing to the other two when it returns wrong_symbol or unknown_order, and one
-- to `rejected` and nothing to the other two when it returns any other error.
pub process-counts :
    (b : OrderBook) (m : Message)
    → counted b.stats + 1 < 2 ^ 64
    → CountsOnce (process b m).0 b.stats (process b m).1.stats
unfolding process
process-counts b m small =
    count-CountsOnce (dispatch b m).0 b.stats (dispatch b m).1.stats small
      (omega (arith, dispatch-SameCounters b m))
