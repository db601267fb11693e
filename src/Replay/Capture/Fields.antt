-- ===== src/Replay/Capture/Fields.antt =====
-- The constants of src/pcap.cpp, and its readers of numbers in the byte order of a capture.
use stock_data_engine.Base.{ℕ, ◌+◌, ◌*◌, Bool, List, get_or, if◌then◌else◌}

abbrev pub section_header : ℕ
section_header = 0x0a0d0d0a

abbrev pub interface_description : ℕ
interface_description = 1

abbrev pub simple_packet : ℕ
simple_packet = 3

abbrev pub enhanced_packet : ℕ
enhanced_packet = 6

abbrev pub maximum_packet_size : ℕ
maximum_packet_size = 65536

abbrev pub maximum_block_size : ℕ
maximum_block_size = 65568

-- The four rounds of `value = (value << 8) | byte`, from the last byte or from the first.
unfoldable pub read32 : List ℕ → Bool → ℕ
read32 bytes little =
    let b0 = get_or bytes 0 0 in
    let b1 = get_or bytes 1 0 in
    let b2 = get_or bytes 2 0 in
    let b3 = get_or bytes 3 0 in
    if little
    then ((b3 * 256 + b2) * 256 + b1) * 256 + b0
    else ((b0 * 256 + b1) * 256 + b2) * 256 + b3

unfoldable pub read16 : List ℕ → Bool → ℕ
read16 bytes little =
    let b0 = get_or bytes 0 0 in
    let b1 = get_or bytes 1 0 in if little then b0 + b1 * 256 else b0 * 256 + b1
