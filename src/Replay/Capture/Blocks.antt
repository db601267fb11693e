-- ===== src/Replay/Capture/Blocks.antt =====
-- The blocks of PCAP-NG in `CaptureReader` of src/pcap.cpp.
use stock_data_engine.Base.{
  ℕ, ◌+◌, ◌-◌, ◌*◌, ◌/◌, ◌%◌, min, Option, none, some, Bool, true, false, List, [], ◌∷◌, ◌++◌,
  length, take, drop, get_elem?, ltb, ◌==◌, ◌||◌, not, if◌then◌else◌,
}
use stock_data_engine.Replay.Capture.Fields.{
  read16, read32, section_header, interface_description, simple_packet, enhanced_packet,
  maximum_packet_size, maximum_block_size,
}
use stock_data_engine.Replay.Capture.Input.{
  Result, throw, ok, ◌>>=◌, Interface, CapturedPacket, CaptureReader, with_input, read_exact, check,
  truncated_block_type, truncated_block_length, invalid_block_length, block_exceeds_limit,
  truncated_block, block_length_mismatch, truncated_section_header, invalid_byte_order_magic,
  section_exceeds_limit, unsupported_pcapng_version, section_length_mismatch, unknown_interface,
  invalid_pcapng_captured_length, no_interface, packet_exceeds_limit,
}

abbrev pub bad_block_size : ℕ → ℕ → Bool
bad_block_size total minimum = ltb total minimum || not (total % 4 == 0)

-- The body with its closing length.
unfoldable pub read_block_body : Bool → ℕ → List ℕ → Result (List ℕ × List ℕ)
unfolding read_exact
read_block_body little total input = check (ltb maximum_block_size total) block_exceeds_limit (
    read_exact (total - 8) truncated_block input >>= λ r.
    check (not (read32 (drop (total - 12) r.0) little == total)) block_length_mismatch (ok r))

-- `seekg` past the end succeeds, and the read behind it then fails.
unfoldable pub skip_block : Bool → ℕ → List ℕ → Result (List ℕ)
unfolding read_exact
skip_block little total input = read_exact 4 truncated_block (drop (total - 12) input) >>= λ r.
    check (not (read32 r.0 little == total)) block_length_mismatch (ok r.1)

-- What the byte-order magic says of `little_`.
abbrev pub byte_order : ℕ → Result Bool
byte_order magic =
    if magic == 0x1a2b3c4d
    then ok true
    else if magic == 0x4d3c2b1a
    then ok false
    else throw invalid_byte_order_magic

-- `consume_section` from the length on, with `little_` set.
unfoldable pub section_body : CaptureReader → ℕ → Result CaptureReader
unfolding read_exact
section_body c total = check (bad_block_size total 28) invalid_block_length (
    check (ltb maximum_block_size (total - 12)) section_exceeds_limit (
      read_exact (total - 12) truncated_section_header c.input >>= λ r.
      check (not (read16 r.0 c.little == 1)) unsupported_pcapng_version (
        check (not (read32 (drop (total - 16) r.0) c.little == total)) section_length_mismatch
          (ok (record c { input = r.1; interfaces = [] })))))

unfoldable pub consume_section : CaptureReader → Result CaptureReader
unfolding read_exact section_body
consume_section c = read_exact 8 truncated_section_header c.input >>= λ r.
    byte_order (read32 (drop 4 r.0) true) >>= λ little.
    section_body (record c { input = r.1; little = little }) (read32 r.0 little)

-- A round of the loop of `next_pcapng`: go on, or return.
pub data Round : Type 0 where
  again : Round
  return : Option CapturedPacket → Round

unfoldable pub interface_block : CaptureReader → ℕ → Result (Round × CaptureReader)
unfolding read_block_body
interface_block c total = check (bad_block_size total 20) invalid_block_length (
    read_block_body c.little total c.input >>= λ r. ok (
      again,
      record c {
        input = r.1;
        interfaces =
            c.interfaces
            ++ record {
              link_type = read16 r.0 c.little;
              snap_length = read32 (drop 4 r.0) c.little;
            }
              ∷ [];
      },
    ))

-- `(captured_length + 3) & ~3`
abbrev pub padded : ℕ → ℕ
padded n = (n + 3) / 4 * 4

abbrev pub captured_slice :
    CaptureReader → List ℕ → Interface → ℕ → ℕ → Result (Round × CaptureReader)
captured_slice c body interface captured original =
    check
      (ltb maximum_packet_size captured
        || (ltb original captured || ltb (length body) (20 + padded captured + 4)))
      invalid_pcapng_captured_length
      (ok (
        return (
            some
              (record { bytes = take captured (drop 20 body); link_type = interface.link_type })),
        c,
      ))

abbrev pub of_interface : CaptureReader → List ℕ → Option Interface → Result (Round × CaptureReader)
of_interface c body none = throw unknown_interface
of_interface c body (some interface) =
    captured_slice c body interface (read32 (drop 12 body) c.little)
      (read32 (drop 16 body) c.little)

unfoldable pub enhanced_block : CaptureReader → ℕ → Result (Round × CaptureReader)
unfolding read_block_body
enhanced_block c total = check (bad_block_size total 32) invalid_block_length (
    read_block_body c.little total c.input >>= λ r.
    of_interface (with_input c r.1) r.0 (get_elem? c.interfaces (read32 r.0 c.little)))

abbrev pub simple_slice : CaptureReader → List ℕ → List Interface → Result (Round × CaptureReader)
simple_slice c body [] = throw no_interface
simple_slice c body (i ∷ is) =
    let captured = min (read32 body c.little) (min i.snap_length (length body - 8)) in
    check (ltb maximum_packet_size captured) packet_exceeds_limit (
      ok (
        return (some (record { bytes = take captured (drop 4 body); link_type = i.link_type })),
        c,
      ))

unfoldable pub simple_block : CaptureReader → ℕ → Result (Round × CaptureReader)
unfolding read_block_body
simple_block c total = check (bad_block_size total 16) invalid_block_length (
    read_block_body c.little total c.input >>= λ r.
    simple_slice (with_input c r.1) r.0 c.interfaces)

unfoldable pub other_block : CaptureReader → ℕ → Result (Round × CaptureReader)
unfolding skip_block
other_block c total = skip_block c.little total c.input >>= λ rest. ok (again, with_input c rest)

-- A block by its type, from its length on.
unfoldable pub sized_block : CaptureReader → ℕ → ℕ → Result (Round × CaptureReader)
unfolding interface_block enhanced_block simple_block other_block
sized_block c type total = check (bad_block_size total 12) invalid_block_length (
    if type == interface_description
    then interface_block c total
    else if type == enhanced_packet
    then enhanced_block c total
    else if type == simple_packet
    then simple_block c total
    else other_block c total)

unfoldable pub next_block : CaptureReader → Result (Round × CaptureReader)
unfolding read_exact consume_section sized_block
next_block c =
    if length c.input == 0
    then ok (return none, c)
    else (read_exact 4 truncated_block_type c.input >>= λ r.
        if read32 r.0 true == section_header
        then (consume_section (with_input c r.1) >>= λ c'. ok (again, c'))
        else (read_exact 4 truncated_block_length r.1 >>= λ q.
            sized_block (with_input c q.1) (read32 r.0 c.little) (read32 q.0 c.little)))
