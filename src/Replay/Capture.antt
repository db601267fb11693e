-- ===== src/Replay/Capture.antt =====
-- `CaptureReader` of src/pcap.cpp: the constructor and `next`, for PCAP and PCAP-NG.
pub mod Fields
pub mod Input
pub mod Blocks
pub mod Progress
pub mod Total
pub mod Written
use stock_data_engine.Base.{
  ℕ, zero, suc, ◌+◌, ◌-◌, ◌*◌, ◌/◌, ◌%◌, min, Option, none, some, Bool, true, false, List, [], ◌∷◌,
  ◌++◌, length, take, drop, get_elem?, ltb, ◌==◌, ◌||◌, not, if◌then◌else◌,
}
use Fields.{read16, read32, section_header, maximum_packet_size}
use Input.{
  Result, throw, ok, ◌>>=◌, Format, pcap, pcapng, CapturedPacket, CaptureReader, with_input,
  read_exact, check, truncated_capture_header, truncated_global_header, unsupported_pcap_version,
  unsupported_magic, truncated_record_header, invalid_captured_length, truncated_packet_data,
}
use Blocks.{consume_section, Round, again, return, next_block}

abbrev pub is_classic_little : ℕ → Bool
is_classic_little magic = magic == 0xa1b2c3d4 || magic == 0xa1b23c4d

abbrev pub is_classic : ℕ → Bool
is_classic magic = is_classic_little magic || (magic == 0xd4c3b2a1 || magic == 0x4d3cb2a1)

unfoldable pub open_classic : Bool → List ℕ → Result CaptureReader
unfolding read_exact
open_classic little input = read_exact 20 truncated_global_header input >>= λ r.
    check (not (read16 r.0 little == 2) || not (read16 (drop 2 r.0) little == 4))
      unsupported_pcap_version
      (ok (record {
        input = r.1;
        format = pcap;
        little = little;
        classic_link_type = read32 (drop 16 r.0) little;
        interfaces = [];
      }))

-- The constructor.
unfoldable pub open_capture : List ℕ → Result CaptureReader
unfolding read_exact open_classic consume_section
open_capture file = read_exact 4 truncated_capture_header file >>= λ r.
    let magic = read32 r.0 true in
    if is_classic magic
    then open_classic (is_classic_little magic) r.1
    else check (not (magic == section_header)) unsupported_magic (
        consume_section (record {
          input = r.1;
          format = pcapng;
          little = false;
          classic_link_type = 0;
          interfaces = [];
        }))

-- `none` is the result false: the end of the file.
unfoldable pub next_classic : CaptureReader → Result (Option CapturedPacket × CaptureReader)
unfolding read_exact
next_classic c =
    if length c.input == 0
    then ok (none, c)
    else (read_exact 16 truncated_record_header c.input >>= λ r.
        let captured = read32 (drop 8 r.0) c.little in
        let original = read32 (drop 12 r.0) c.little in
        check (ltb maximum_packet_size captured || ltb original captured) invalid_captured_length (
          read_exact captured truncated_packet_data r.1 >>= λ p.
          ok (some (record { bytes = p.0; link_type = c.classic_link_type }), with_input c p.1)))

-- What the loop does after a round.
abbrev pub go_on :
    (CaptureReader → Option (Result (Option CapturedPacket × CaptureReader)))
    → Result (Round × CaptureReader)
    → Option (Result (Option CapturedPacket × CaptureReader))
go_on loop (throw e) = some (throw e)
go_on loop (ok (return p, c)) = some (ok (p, c))
go_on loop (ok (again, c)) = loop c

-- The loop, with at most `n` rounds; `none` is a loop that goes on.
unfoldable pub next_pcapng :
    ℕ → CaptureReader → Option (Result (Option CapturedPacket × CaptureReader))
unfolding next_block
next_pcapng zero c = none
next_pcapng (suc n) c = go_on (next_pcapng n) (next_block c)

abbrev pub next_of :
    Format → CaptureReader → Option (Result (Option CapturedPacket × CaptureReader))
next_of pcap c = some (next_classic c)
next_of pcapng c = next_pcapng (length c.input + 1) c

-- Every round of the loop takes bytes from the file.
unfoldable pub next : CaptureReader → Option (Result (Option CapturedPacket × CaptureReader))
unfolding next_classic next_pcapng
next c = next_of c.format c
