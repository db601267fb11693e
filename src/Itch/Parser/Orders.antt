-- ===== src/Itch/Parser/Orders.antt =====
-- The cases of the switch of `parse_message` in src/parser.cpp that read order messages and trades,
-- from 'A' to 'P'.
use stock_data_engine.Base.{ℕ, Option, none, some}
use stock_data_engine.Itch.Messages.{Header, Side, Message, ParseError, ParseResult}
use stock_data_engine.Itch.Parser.Read.{Reader, ◌>>=◌, pure, u8, u32, u64, chars, read_side}
use stock_data_engine.Itch.Parser.Reply.{succeeded, failed}

unfoldable pub add_order_after : Header → ℕ → Option Side → Reader ParseResult
add_order_after h order_id none = pure (failed ParseError.invalid_side)
add_order_after h order_id (some side) = do
  quantity ← u32
  stock ← chars 8
  price ← u32
  pure (
      succeeded (
        Message.add_order (record {
          header = h;
          order_id = order_id;
          side = side;
          quantity = quantity;
          stock = stock;
          price = price;
        })))

unfoldable pub read_add_order : Header → Reader ParseResult
unfolding add_order_after
read_add_order h = do order_id ← u64; side ← read_side; add_order_after h order_id side

unfoldable pub add_order_mpid_after : Header → ℕ → Option Side → Reader ParseResult
add_order_mpid_after h order_id none = pure (failed ParseError.invalid_side)
add_order_mpid_after h order_id (some side) = do
  quantity ← u32
  stock ← chars 8
  price ← u32
  attribution ← chars 4
  pure (
      succeeded (
        Message.add_order_mpid (record {
          add_order = record {
            header = h;
            order_id = order_id;
            side = side;
            quantity = quantity;
            stock = stock;
            price = price;
          };
          attribution = attribution;
        })))

unfoldable pub read_add_order_mpid : Header → Reader ParseResult
unfolding add_order_mpid_after
read_add_order_mpid h = do order_id ← u64; side ← read_side; add_order_mpid_after h order_id side

unfoldable pub read_order_executed : Header → Reader ParseResult
read_order_executed h = do
  order_id ← u64
  executed ← u32
  match_number ← u64
  pure (
      succeeded (
        Message.order_executed (record {
          header = h;
          order_id = order_id;
          executed = executed;
          match_number = match_number;
        })))

unfoldable pub read_order_executed_with_price : Header → Reader ParseResult
read_order_executed_with_price h = do
  order_id ← u64
  executed ← u32
  match_number ← u64
  printable ← u8
  execution_price ← u32
  pure (
      succeeded (
        Message.order_executed_with_price (record {
          order_executed = record {
            header = h;
            order_id = order_id;
            executed = executed;
            match_number = match_number;
          };
          printable = printable;
          execution_price = execution_price;
        })))

unfoldable pub read_order_cancel : Header → Reader ParseResult
read_order_cancel h = do
  order_id ← u64
  canceled ← u32
  pure (
      succeeded
        (Message.order_cancel (record { header = h; order_id = order_id; canceled = canceled })))

unfoldable pub read_order_delete : Header → Reader ParseResult
read_order_delete h = do
  order_id ← u64
  pure (succeeded (Message.order_delete (record { header = h; order_id = order_id })))

unfoldable pub read_order_replace : Header → Reader ParseResult
read_order_replace h = do
  original_order_id ← u64
  new_order_id ← u64
  quantity ← u32
  price ← u32
  pure (
      succeeded (
        Message.order_replace (record {
          header = h;
          original_order_id = original_order_id;
          new_order_id = new_order_id;
          quantity = quantity;
          price = price;
        })))

unfoldable pub trade_after : Header → ℕ → Option Side → Reader ParseResult
trade_after h order_id none = pure (failed ParseError.invalid_side)
trade_after h order_id (some side) = do
  quantity ← u32
  stock ← chars 8
  price ← u32
  match_number ← u64
  pure (
      succeeded (
        Message.trade (record {
          header = h;
          order_id = order_id;
          side = side;
          quantity = quantity;
          stock = stock;
          price = price;
          match_number = match_number;
        })))

unfoldable pub read_trade : Header → Reader ParseResult
unfolding trade_after
read_trade h = do order_id ← u64; side ← read_side; trade_after h order_id side
