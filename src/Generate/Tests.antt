-- ===== src/Generate/Tests.antt =====
-- tools/generate_feed.cpp for three messages.
use stock_data_engine.Base.{ℕ, ◌+◌, ◌≡◌, refl, true, false, Option, none, some, List, length, arith}
use stock_data_engine.Itch.Messages.{Message}
use stock_data_engine.Itch.Framed.{fresh_decoder, consume}
use stock_data_engine.Itch.Framed.Stream.{Leaves}
use stock_data_engine.Itch.Framed.Encoded.{call_all}
use stock_data_engine.Generate.{generate}
use stock_data_engine.Generate.Decoded.{generate-consume}

abbrev count_messages : ℕ → Message → ℕ
count_messages n m = n + 1

-- An add and an execution, 38 and 33 bytes, and another add.
abbrev size_of : Option (List ℕ) → ℕ
size_of none = 0
size_of (some output) = length output

size-three : size_of (generate false 3) ≡ 109
unfolding generate
size-three = refl

generate-consume_example :
    (output : List ℕ) × (all : List Message) × (generate false 3 ≡ some output)
    × (length all ≡ 3)
    × Leaves count_messages
        (consume count_messages output fresh_decoder 0)
        true
        (call_all count_messages 0 all)
        (record { decoded = 3; malformed = 0; unsupported = 0 })
generate-consume_example = generate-consume count_messages 0 false 3 (omega arith)
