-- ===== src/Replay/Types.antt =====
-- The data of include/replay/pcap.hpp.
use stock_data_engine.Base.{ℕ, Bool, true, false, List, [], ◌==◌, ◌&&◌, ◌||◌}

pub data PacketError : Type 0 where
  none unsupported_link_type truncated_ethernet unsupported_network_protocol : PacketError
  truncated_ip fragmented_ip non_udp truncated_udp : PacketError

pub record UdpPayload : Type 0 where
  pub error : PacketError
  pub bytes : List ℕ
  pub source_port : ℕ
  pub destination_port : ℕ

-- `{error, {}}`
abbrev pub refused : PacketError → UdpPayload
refused e = record { error = e; bytes = []; source_port = 0; destination_port = 0 }

-- `explicit operator bool`
abbrev pub is_none : PacketError → Bool
is_none none = true
is_none _ = false

pub record PcapFilter : Type 0 where
  pub source_port : ℕ
  pub destination_port : ℕ

unfoldable pub matches : PcapFilter → UdpPayload → Bool
matches f udp =
    (f.source_port == 0 || udp.source_port == f.source_port)
    && (f.destination_port == 0 || udp.destination_port == f.destination_port)

pub record PcapStats : Type 0 where
  pub packets : ℕ
  pub udp_packets : ℕ
  pub filtered_packets : ℕ
  pub skipped_packets : ℕ
  pub malformed_packets : ℕ
  pub mold_packets : ℕ
  pub mold_messages : ℕ
  pub mold_errors : ℕ
  pub heartbeats : ℕ
  pub end_of_session : ℕ
  pub sequence_gaps : ℕ
  pub missing_messages : ℕ
  pub sequence_rewinds : ℕ

-- `PcapStats{}`
abbrev pub no_stats : PcapStats
no_stats = record {
  packets = 0;
  udp_packets = 0;
  filtered_packets = 0;
  skipped_packets = 0;
  malformed_packets = 0;
  mold_packets = 0;
  mold_messages = 0;
  mold_errors = 0;
  heartbeats = 0;
  end_of_session = 0;
  sequence_gaps = 0;
  missing_messages = 0;
  sequence_rewinds = 0;
}
