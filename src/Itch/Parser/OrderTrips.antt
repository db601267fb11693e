-- ===== src/Itch/Parser/OrderTrips.antt =====
-- Each body reader inverts the encoder of its message, and each body has its length.
use stock_data_engine.Base.{◌≡◌, some, [], ◌++◌, length, length-append, arith}
use stock_data_engine.Itch.Messages.{
  AddOrder, AddOrderMpid, OrderExecuted, OrderExecutedWithPrice, OrderCancel, OrderDelete,
  OrderReplace, Trade, add_order, add_order_mpid, order_executed, order_executed_with_price,
  order_cancel, order_delete, order_replace, trade,
}
use stock_data_engine.Itch.Parser.Read.{◌>>=◌}
use stock_data_engine.Itch.Parser.Reply.{succeeded}
use stock_data_engine.Itch.Parser.Fields.{
  be32, be64, u8-cons, u32-be32, u64-be64, chars-append, read_side-code,
}
use stock_data_engine.Itch.Parser.Encode.{
  BodyFits, body_add_order, body_add_order_mpid, body_order_executed,
  body_order_executed_with_price, body_order_cancel, body_order_delete, body_order_replace,
  body_trade,
}
use stock_data_engine.Itch.Parser.Orders.{
  read_add_order, read_add_order_mpid, read_order_executed, read_order_executed_with_price,
  read_order_cancel, read_order_delete, read_order_replace, read_trade,
}

pub read_add_order-body :
    (m : AddOrder)
    → BodyFits (add_order m)
    → read_add_order m.header (body_add_order m) ≡ some (succeeded (add_order m), [])
unfolding read_add_order
read_add_order-body m f =
    simp (u32-be32, u64-be64, chars-append, read_side-code, f.0, f.1, f.2, f.3, ◌>>=◌)

pub length-body_add_order : (m : AddOrder) → BodyFits (add_order m) → length (body_add_order m) ≡ 25
length-body_add_order m f = omega (arith, length-append m.stock (be32 m.price ++ []))

pub read_add_order_mpid-body :
    (m : AddOrderMpid)
    → BodyFits (add_order_mpid m)
    → read_add_order_mpid m.add_order.header (body_add_order_mpid m)
      ≡ some (succeeded (add_order_mpid m), [])
unfolding read_add_order_mpid
read_add_order_mpid-body m f =
    simp (u32-be32, u64-be64, chars-append, read_side-code, f.0, f.1, f.2, f.3, f.4, ◌>>=◌)

pub length-body_add_order_mpid :
    (m : AddOrderMpid) → BodyFits (add_order_mpid m) → length (body_add_order_mpid m) ≡ 29
length-body_add_order_mpid m f = omega (
  arith,
  length-append m.add_order.stock (be32 m.add_order.price ++ (m.attribution ++ [])),
  length-append m.attribution ([]),
)

pub read_order_executed-body :
    (m : OrderExecuted)
    → BodyFits (order_executed m)
    → read_order_executed m.header (body_order_executed m) ≡ some (succeeded (order_executed m), [])
unfolding read_order_executed
read_order_executed-body m f = simp (u32-be32, u64-be64, f.0, f.1, f.2, ◌>>=◌)

pub length-body_order_executed :
    (m : OrderExecuted) → BodyFits (order_executed m) → length (body_order_executed m) ≡ 20
length-body_order_executed m f = omega arith

pub read_order_executed_with_price-body :
    (m : OrderExecutedWithPrice)
    → BodyFits (order_executed_with_price m)
    → read_order_executed_with_price m.order_executed.header (body_order_executed_with_price m)
      ≡ some (succeeded (order_executed_with_price m), [])
unfolding read_order_executed_with_price
read_order_executed_with_price-body m f =
    simp (u8-cons, u32-be32, u64-be64, f.0, f.1, f.2, f.3, ◌>>=◌)

pub length-body_order_executed_with_price :
    (m : OrderExecutedWithPrice)
    → BodyFits (order_executed_with_price m)
    → length (body_order_executed_with_price m) ≡ 25
length-body_order_executed_with_price m f = omega arith

pub read_order_cancel-body :
    (m : OrderCancel)
    → BodyFits (order_cancel m)
    → read_order_cancel m.header (body_order_cancel m) ≡ some (succeeded (order_cancel m), [])
unfolding read_order_cancel
read_order_cancel-body m f = simp (u32-be32, u64-be64, f.0, f.1, ◌>>=◌)

pub length-body_order_cancel :
    (m : OrderCancel) → BodyFits (order_cancel m) → length (body_order_cancel m) ≡ 12
length-body_order_cancel m f = omega arith

pub read_order_delete-body :
    (m : OrderDelete)
    → BodyFits (order_delete m)
    → read_order_delete m.header (body_order_delete m) ≡ some (succeeded (order_delete m), [])
unfolding read_order_delete
read_order_delete-body m f = simp (u64-be64, f, ◌>>=◌)

pub length-body_order_delete :
    (m : OrderDelete) → BodyFits (order_delete m) → length (body_order_delete m) ≡ 8
length-body_order_delete m f = omega arith

pub read_order_replace-body :
    (m : OrderReplace)
    → BodyFits (order_replace m)
    → read_order_replace m.header (body_order_replace m) ≡ some (succeeded (order_replace m), [])
unfolding read_order_replace
read_order_replace-body m f = simp (u32-be32, u64-be64, f.0, f.1, f.2, f.3, ◌>>=◌)

pub length-body_order_replace :
    (m : OrderReplace) → BodyFits (order_replace m) → length (body_order_replace m) ≡ 24
length-body_order_replace m f = omega arith

pub read_trade-body :
    (m : Trade)
    → BodyFits (trade m)
    → read_trade m.header (body_trade m) ≡ some (succeeded (trade m), [])
unfolding read_trade
read_trade-body m f =
    simp (u32-be32, u64-be64, chars-append, read_side-code, f.0, f.1, f.2, f.3, f.4, ◌>>=◌)

pub length-body_trade : (m : Trade) → BodyFits (trade m) → length (body_trade m) ≡ 33
length-body_trade m f =
    omega (arith, length-append m.stock (be32 m.price ++ (be64 m.match_number ++ [])))
