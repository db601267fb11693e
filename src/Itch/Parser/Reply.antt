-- ===== src/Itch/Parser/Reply.antt =====
-- The two forms in which src/parser.cpp builds a `ParseResult`.
use stock_data_engine.Itch.Messages.{SystemEvent, Message, ParseError, ParseResult}

-- `SystemEvent{}`
abbrev pub default_event : SystemEvent
default_event = record {
  header = record { stock_locate = 0; tracking_number = 0; timestamp = 0 };
  event_code = 0;
}

-- `{error, {SystemEvent{}}}`
abbrev pub failed : ParseError → ParseResult
failed e = record { error = e; message = Message.system_event default_event }

-- `{ParseError::none, m}`
abbrev pub succeeded : Message → ParseResult
succeeded m = record { error = ParseError.none; message = m }
