-- ===== src/Replay/Samples.antt =====
-- Sample data for src/pcap.cpp and src/replay.cpp: a capture of packets in Ethernet frames with a VLAN tag,
-- each of which deletes an order.
use stock_data_engine.Base.{◌+◌, ℕ, ◌^◌, ◌<◌, refl, true, false, List, [], ◌∷◌, arith, inl}
use stock_data_engine.Itch.Messages.{Message, order_delete}
use stock_data_engine.Itch.Parser.Encode.{Fits}
use stock_data_engine.Itch.Mold.{MoldHeader}
use stock_data_engine.Replay.Types.{PcapFilter, matches}
use stock_data_engine.Replay.Udp.Ipv4.{Datagram, IsDatagram, ip_bytes, payload_of}
use stock_data_engine.Replay.Udp.Ethernet.{Tag, ethernet_bytes, extract_udp_payload-ethernet}
use stock_data_engine.Replay.Capture.Written.{Written, IsWritten}
use stock_data_engine.Replay.Session.Messages.{packet_bytes}
use stock_data_engine.Replay.Session.Stream.{Sent, Carries}
use stock_data_engine.Replay.Runner.{Config}

abbrev pub delete : Message
delete = order_delete (record {
  header = record { stock_locate = 1; tracking_number = 2; timestamp = 3 };
  order_id = 77;
})

abbrev pub header_of_number : ℕ → MoldHeader
header_of_number n = record {
  session = 48 ∷ 48 ∷ 48 ∷ 48 ∷ 48 ∷ 48 ∷ 48 ∷ 48 ∷ 48 ∷ 48 ∷ [];
  sequence = n;
  message_count = 1;
}

abbrev pub datagram : ℕ → Datagram
datagram n = record {
  tos = 0;
  ident_high = 0;
  ident_low = 0;
  dont_fragment = true;
  ttl = 64;
  addresses = 0 ∷ 0 ∷ 1 ∷ 2 ∷ 3 ∷ 4 ∷ 5 ∷ 6 ∷ 7 ∷ 8 ∷ [];
  options = [];
  source_port = 4000;
  destination_port = 5000;
  checksum_high = 0;
  checksum_low = 0;
  payload = packet_bytes (header_of_number n) (delete ∷ []);
}

abbrev pub macs : List ℕ
macs = 1 ∷ 2 ∷ 3 ∷ 4 ∷ 5 ∷ 6 ∷ 1 ∷ 2 ∷ 3 ∷ 4 ∷ 5 ∷ 6 ∷ []

abbrev pub tags : List Tag
tags = record { service = false; high = 0; low = 7 } ∷ []

abbrev pub frame_bytes : ℕ → List ℕ
frame_bytes n = ethernet_bytes macs tags (ip_bytes (datagram n) [])

abbrev pub sent : ℕ → Sent
sent n = record {
  packet = record { bytes = frame_bytes n; link_type = 1 };
  header = header_of_number n;
  messages = delete ∷ [];
}

abbrev pub written : Written
written = record {
  stamp = 0 ∷ 0 ∷ 0 ∷ 0 ∷ 0 ∷ 0 ∷ 0 ∷ 0 ∷ [];
  original = 2000;
  bytes = frame_bytes 9;
}

abbrev pub middle : List ℕ
middle = 0 ∷ 0 ∷ 0 ∷ 0 ∷ 0 ∷ 0 ∷ 0 ∷ 0 ∷ 0 ∷ 0 ∷ 1 ∷ 0 ∷ []

abbrev pub filter : PcapFilter
filter = record { source_port = 0; destination_port = 5000 }

abbrev pub config : Config
config = record {
  max_orders = 2;
  max_levels = 2;
  latency_samples = 4;
  sample_every = 2;
  symbol = [];
}

pub datagram-IsDatagram : (n : ℕ) → IsDatagram (datagram n)
datagram-IsDatagram n = record {
  addressed = refl;
  words = refl;
  few = omega arith;
  source = omega arith;
  destination = omega arith;
  fits = omega arith;
}

pub delete-Fits : Fits delete
delete-Fits = ((omega arith, omega arith, omega arith), omega arith)

pub sent-Carries : (n : ℕ) → n < 2 ^ 64 → Carries filter (sent n)
unfolding matches
sent-Carries n small = (
  payload_of (datagram n),
  extract_udp_payload-ethernet macs tags (datagram n) [] refl (datagram-IsDatagram n),
  refl,
  refl,
  refl,
  ((refl, small, omega arith), inl (refl, omega arith), (delete-Fits, tt)),
)

pub written-IsWritten : IsWritten written
written-IsWritten = (refl, omega arith, omega arith, omega arith)

abbrev pub count_messages : ℕ → Message → ℕ
count_messages n m = n + 1
