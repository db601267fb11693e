-- ===== src/Itch/Parser/Total.antt =====
-- `parse_message` of src/parser.cpp never reads past the end of its input.
use stock_data_engine.Base.{
  ℕ, ◌+◌, ◌≤◌, ◌≡◌, ◌≢◌, refl, some, List, [], ◌∷◌, length, arith, Bool, true, false, ◌==◌,
  if◌then◌else◌, inl, inr, Bool-cases, ==→eq, ==→ne,
}
use stock_data_engine.Itch.Messages.{Header, ParseResult, ParseError}
use stock_data_engine.Itch.Parser.{
  expected_message_length, read_body, read_message, parse_message, returned,
}
use stock_data_engine.Itch.Parser.Read.{Reader, ◌>>=◌}
use stock_data_engine.Itch.Parser.Reply.{failed}
use stock_data_engine.Itch.Parser.Reads.{Reads, read_header-Reads}
use stock_data_engine.Itch.Parser.MarketReads.{
  read_system_event-Reads, read_stock_directory-Reads, read_stock_trading_action-Reads,
  read_reg_sho_restriction-Reads, read_market_participant_position-Reads,
  read_mwcb_decline_level-Reads, read_mwcb_status-Reads, read_ipo_quoting_period-Reads,
  read_luld_auction_collar-Reads, read_operational_halt-Reads, read_cross_trade-Reads,
  read_broken_trade-Reads, read_noii-Reads, read_retail_price_improvement-Reads,
}
use stock_data_engine.Itch.Parser.OrderReads.{
  read_add_order-Reads, read_add_order_mpid-Reads, read_order_executed-Reads,
  read_order_executed_with_price-Reads, read_order_cancel-Reads, read_order_delete-Reads,
  read_order_replace-Reads, read_trade-Reads,
}

-- A message of `n` bytes in all has enough for the reader, unless `n` is 0.
abbrev Enough : ℕ → Reader ParseResult → Type 0
Enough n r = n ≢ 0 → (k : ℕ) × Reads r k × (k + 11 ≤ n)

Enough-if :
    {n n' : ℕ} {r r' : Reader ParseResult} {k : ℕ} (b : Bool)
    → Reads r k
    → k + 11 ≤ n
    → Enough n' r'
    → Enough (if b then n else n') (if b then r else r')
Enough-if true p h q ne = (_, p, h)
Enough-if false p h q ne = q ne

read_body-Enough :
    (type : ℕ) (h : Header) → Enough (expected_message_length type) (read_body type h)
unfolding expected_message_length read_body
read_body-Enough type h = Enough-if (type == b'S') (read_system_event-Reads h) (omega arith) (
    Enough-if (type == b'R') (read_stock_directory-Reads h) (omega arith) (
      Enough-if (type == b'H') (read_stock_trading_action-Reads h) (omega arith) (
        Enough-if (type == b'Y') (read_reg_sho_restriction-Reads h) (omega arith) (
          Enough-if (type == b'L') (read_market_participant_position-Reads h) (omega arith) (
            Enough-if (type == b'V') (read_mwcb_decline_level-Reads h) (omega arith) (
              Enough-if (type == b'W') (read_mwcb_status-Reads h) (omega arith) (
                Enough-if (type == b'K') (read_ipo_quoting_period-Reads h) (omega arith) (
                  Enough-if (type == b'J') (read_luld_auction_collar-Reads h) (omega arith) (
                    Enough-if (type == b'h') (read_operational_halt-Reads h) (omega arith) (
                      Enough-if (type == b'A') (read_add_order-Reads h) (omega arith) (
                        Enough-if (type == b'F') (read_add_order_mpid-Reads h) (omega arith) (
                          Enough-if (type == b'E') (read_order_executed-Reads h) (omega arith) (
                            Enough-if (type == b'C') (read_order_executed_with_price-Reads h)
                              (omega arith)
                              (Enough-if (type == b'X') (read_order_cancel-Reads h) (omega arith) (
                                Enough-if (type == b'D') (read_order_delete-Reads h) (omega arith) (
                                  Enough-if (type == b'U') (read_order_replace-Reads h)
                                    (omega arith)
                                    (Enough-if (type == b'P') (read_trade-Reads h) (omega arith) (
                                      Enough-if (type == b'Q') (read_cross_trade-Reads h)
                                        (omega arith)
                                        (Enough-if (type == b'B') (read_broken_trade-Reads h)
                                          (omega arith)
                                          (Enough-if (type == b'I') (read_noii-Reads h)
                                            (omega arith)
                                            (Enough-if (type == b'N')
                                              (read_retail_price_improvement-Reads h) (omega arith)
                                              ((λ z. absurd (z refl))))))))))))))))))))))))

read_message-runs :
    (type : ℕ) (rest : List ℕ)
    → expected_message_length type ≢ 0
    → length rest + 1 ≡ expected_message_length type
    → (r : ParseResult) × (returned (read_message type rest) ≡ some r)
unfolding read_message
read_message-runs type rest known len =
    let (k0, p0, fits0) = read_body-Enough type default_header known in
    let (h, after, e, used) = read_header-Reads.run rest (omega (arith, fits0)) in
    let (k, p, fits) = read_body-Enough type h known in
    let (r, left, e', used') = p.run after (omega (arith, fits, len, used)) in
    (r, rw (e, ◌>>=◌, e') refl)
  where
    default_header : Header
    default_header = record { stock_locate = 0; tracking_number = 0; timestamp = 0 }

-- On every input, of any length and any bytes, `parse_message` gives a result: no read is past the
-- end of the input.
pub parse_message-total : (bs : List ℕ) → (r : ParseResult) × (parse_message bs ≡ some r)
unfolding parse_message
parse_message-total [] = (_, refl)
parse_message-total (type ∷ rest) = elim (Bool-cases (expected_message_length type == 0)) [
  | inl unknown ↦ (failed ParseError.unsupported_type, rw (unknown, parse_message) refl)
  | inr known ↦ elim (Bool-cases (length (type ∷ rest) == expected_message_length type)) [
    | inr wrong ↦ (failed ParseError.wrong_length, rw (known, wrong, parse_message) refl)
    | inl right ↦
        let (r, e) =
          read_message-runs type rest (==→ne (expected_message_length type) 0 known)
            (omega (arith, ==→eq (length (type ∷ rest)) (expected_message_length type) right)) in
        (r, rw (known, right, parse_message, e) refl)
  ]
]
