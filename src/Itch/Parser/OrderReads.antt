-- ===== src/Itch/Parser/OrderReads.antt =====
-- How many bytes the readers of order messages of src/parser.cpp need.
use stock_data_engine.Base.{ℕ, ◌+◌, Option, none, some}
use stock_data_engine.Itch.Messages.{Header, Side}
use stock_data_engine.Itch.Parser.Orders.{
  read_add_order, read_add_order_mpid, read_order_executed, read_order_executed_with_price,
  read_order_cancel, read_order_delete, read_order_replace, read_trade, add_order_after,
  add_order_mpid_after, trade_after,
}
use stock_data_engine.Itch.Parser.Reads.{
  Reads, Reads-pure, Reads-stop, Reads-bind, u8-Reads, u32-Reads, u64-Reads, chars-Reads,
  read_side-Reads,
}

pub read_order_executed-Reads : (h : Header) → Reads (read_order_executed h) (8 + (4 + (8 + 0)))
unfolding read_order_executed
read_order_executed-Reads h = Reads-bind u64-Reads (λ order_id.
    Reads-bind u32-Reads (λ executed. Reads-bind u64-Reads (λ match_number. Reads-pure _)))

pub read_order_executed_with_price-Reads :
    (h : Header) → Reads (read_order_executed_with_price h) (8 + (4 + (8 + (1 + (4 + 0)))))
unfolding read_order_executed_with_price
read_order_executed_with_price-Reads h = Reads-bind u64-Reads (λ order_id.
    Reads-bind u32-Reads (λ executed. Reads-bind u64-Reads (λ match_number.
      Reads-bind u8-Reads (λ printable. Reads-bind u32-Reads (λ execution_price. Reads-pure _)))))

pub read_order_cancel-Reads : (h : Header) → Reads (read_order_cancel h) (8 + (4 + 0))
unfolding read_order_cancel
read_order_cancel-Reads h =
    Reads-bind u64-Reads (λ order_id. Reads-bind u32-Reads (λ canceled. Reads-pure _))

pub read_order_delete-Reads : (h : Header) → Reads (read_order_delete h) (8 + 0)
unfolding read_order_delete
read_order_delete-Reads h = Reads-bind u64-Reads (λ order_id. Reads-pure _)

pub read_order_replace-Reads : (h : Header) → Reads (read_order_replace h) (8 + (8 + (4 + (4 + 0))))
unfolding read_order_replace
read_order_replace-Reads h = Reads-bind u64-Reads (λ original_order_id.
    Reads-bind u64-Reads (λ new_order_id.
      Reads-bind u32-Reads (λ quantity. Reads-bind u32-Reads (λ price. Reads-pure _))))

pub add_order_after-Reads :
    (h : Header) (id : ℕ) (side : Option Side)
    → Reads (add_order_after h id side) (4 + (8 + (4 + 0)))
unfolding add_order_after
add_order_after-Reads h id none = Reads-stop _ _
add_order_after-Reads h id (some side) =
    Reads-bind u32-Reads
      (λ q. Reads-bind (chars-Reads 8) (λ s. Reads-bind u32-Reads (λ p. Reads-pure _)))

pub read_add_order-Reads : (h : Header) → Reads (read_add_order h) (8 + (1 + (4 + (8 + (4 + 0)))))
unfolding read_add_order
read_add_order-Reads h =
    Reads-bind u64-Reads
      (λ id. Reads-bind read_side-Reads (λ side. add_order_after-Reads h id side))

pub add_order_mpid_after-Reads :
    (h : Header) (id : ℕ) (side : Option Side)
    → Reads (add_order_mpid_after h id side) (4 + (8 + (4 + (4 + 0))))
unfolding add_order_mpid_after
add_order_mpid_after-Reads h id none = Reads-stop _ _
add_order_mpid_after-Reads h id (some side) = Reads-bind u32-Reads (λ q.
    Reads-bind (chars-Reads 8)
      (λ s. Reads-bind u32-Reads (λ p. Reads-bind (chars-Reads 4) (λ a. Reads-pure _))))

pub read_add_order_mpid-Reads :
    (h : Header) → Reads (read_add_order_mpid h) (8 + (1 + (4 + (8 + (4 + (4 + 0))))))
unfolding read_add_order_mpid
read_add_order_mpid-Reads h =
    Reads-bind u64-Reads
      (λ id. Reads-bind read_side-Reads (λ side. add_order_mpid_after-Reads h id side))

pub trade_after-Reads :
    (h : Header) (id : ℕ) (side : Option Side)
    → Reads (trade_after h id side) (4 + (8 + (4 + (8 + 0))))
unfolding trade_after
trade_after-Reads h id none = Reads-stop _ _
trade_after-Reads h id (some side) = Reads-bind u32-Reads (λ q.
    Reads-bind (chars-Reads 8)
      (λ s. Reads-bind u32-Reads (λ p. Reads-bind u64-Reads (λ m. Reads-pure _))))

pub read_trade-Reads : (h : Header) → Reads (read_trade h) (8 + (1 + (4 + (8 + (4 + (8 + 0))))))
unfolding read_trade
read_trade-Reads h =
    Reads-bind u64-Reads (λ id. Reads-bind read_side-Reads (λ side. trade_after-Reads h id side))
