-- ===== src/Replay/Session.antt =====
-- `decode_capture` of src/pcap.cpp: the packets of a capture, from the UDP extraction over the
-- MoldUDP64 decoder with the sequence tracker as its gate to the message parser and the callback, which
-- acts on a state of the caller's. The counters are 64-bit words.
pub mod Gate
pub mod Messages
pub mod Stream
pub mod Restart
pub mod Lost
pub mod Whole
pub mod Callback
mod Tests
use stock_data_engine.Base.{
  ℕ, zero, suc, ◌+◌, ◌%◌, ◌^◌, Bool, true, false, Option, none, some, List, [], ◌∷◌, length, not,
  if◌then◌else◌,
}
use stock_data_engine.Itch.Messages.{Message, ParseError, ParseResult}
use stock_data_engine.Itch.Parser.{parse_message}
use stock_data_engine.Itch.Framed.{DecoderStats, count_decoded, count_failure}
use stock_data_engine.Itch.Mold.{
  MoldHeader, MoldError, MoldResult, heartbeat, end_of_session, decode,
}
use stock_data_engine.Itch.Sequence.{SequenceStatus, SequenceTracker, observe}
use stock_data_engine.Itch.Sequence
use stock_data_engine.Replay.Types.{PacketError, UdpPayload, PcapFilter, matches, PcapStats}
use stock_data_engine.Replay.Udp.{extract_udp_payload}
use stock_data_engine.Replay.Capture.Input.{
  CaptureError, Result, throw, ok, CapturedPacket, CaptureReader,
}
use stock_data_engine.Replay.Capture.{open_capture, next}

abbrev pub increment : ℕ → ℕ
increment n = (n + 1) % 2 ^ 64

-- The locals of `decode_capture`, the two statistics that it is given, and the callback's state.
pub record Session (S : Type 0) : Type 0 where
  pub pcap_stats : PcapStats
  pub decoder_stats : DecoderStats
  pub sequence_tracker : SequenceTracker
  pub sequence_valid : Bool
  pub user : S

abbrev pub start_session : {S : Type 0} → PcapStats → DecoderStats → S → Session S
start_session p d s = record {
  pcap_stats = p;
  decoder_stats = d;
  sequence_tracker = Sequence.reset;
  sequence_valid = true;
  user = s;
}

abbrev pub count_gap : ℕ → PcapStats → PcapStats
count_gap missing p = record p {
  sequence_gaps = increment p.sequence_gaps;
  missing_messages = (p.missing_messages + missing) % 2 ^ 64;
}

abbrev pub count_refused : PacketError → PcapStats → PcapStats
count_refused PacketError.non_udp p = record p { skipped_packets = increment p.skipped_packets }
count_refused PacketError.unsupported_network_protocol p = record p {
  skipped_packets = increment p.skipped_packets;
}
count_refused _ p = record p { malformed_packets = increment p.malformed_packets }

-- The counters behind `if (!mold)`.
abbrev pub count_mold : MoldHeader → PcapStats → PcapStats
count_mold h p = record p {
  mold_packets = increment p.mold_packets;
  mold_messages =
      if end_of_session h then p.mold_messages else (p.mold_messages + h.message_count) % 2 ^ 64;
  heartbeats = if heartbeat h then increment p.heartbeats else p.heartbeats;
  end_of_session = if end_of_session h then increment p.end_of_session else p.end_of_session;
}

module _ {S : Type 0} where
  -- What the gate answers to a status.
  abbrev pub admit : SequenceStatus → ℕ → Session S → Bool × Session S
  admit SequenceStatus.gap missing s =
      (false, record s { pcap_stats = count_gap missing s.pcap_stats; sequence_valid = false })
  admit SequenceStatus.rewind missing s = (
    false,
    record s {
      pcap_stats = record s.pcap_stats {
        sequence_rewinds = increment s.pcap_stats.sequence_rewinds;
      };
    },
  )
  admit SequenceStatus.new_session missing s = (true, record s { sequence_valid = true })
  admit _ missing s = (s.sequence_valid, s)

  -- The gate: the second lambda.
  unfoldable pub gate : Session S → MoldHeader → Bool × Session S
  gate s h =
      let (r, t) = observe s.sequence_tracker h in
      admit r.status r.missing (record s { sequence_tracker = t })

  abbrev pub after_mold : MoldResult → Session S → Session S
  after_mold r s = elim r.error [
    | MoldError.none ↦ record s { pcap_stats = count_mold r.header s.pcap_stats }
    | _ ↦ record s {
      pcap_stats = record s.pcap_stats { mold_errors = increment s.pcap_stats.mold_errors };
    }
  ]

module _ {S : Type 0} (callback : S → Message → S) where
  abbrev pub on_parsed : ParseError → Message → Session S → Session S
  on_parsed ParseError.none m s = record s {
    decoder_stats = count_decoded s.decoder_stats;
    user = callback s.user m;
  }
  on_parsed e m s = record s { decoder_stats = count_failure e s.decoder_stats }

  -- `parse_message` always returns, so the first clause stands for nothing.
  abbrev pub on_reply : Option ParseResult → Session S → Session S
  on_reply none s = s
  on_reply (some r) s = on_parsed r.error r.message s

  -- The first lambda, on a message of a packet.
  unfoldable pub on_message : Session S → List ℕ → ℕ → Session S
  on_message s bytes sequence = on_reply (parse_message bytes) s

  -- A datagram that passed the filter.
  unfoldable pub handle_mold : List ℕ → Session S → Session S
  handle_mold bytes s = let (r, s') = decode on_message gate bytes s in after_mold r s'

  abbrev pub accepted_udp : PcapFilter → UdpPayload → Session S → Session S
  accepted_udp filter udp s =
      if not (matches filter udp)
      then record s {
        pcap_stats = record s.pcap_stats {
          filtered_packets = increment s.pcap_stats.filtered_packets;
        };
      }
      else handle_mold udp.bytes s

  abbrev pub handle_udp : PcapFilter → PacketError → UdpPayload → Session S → Session S
  handle_udp filter PacketError.none udp s = accepted_udp filter udp (record s {
    pcap_stats = record s.pcap_stats { udp_packets = increment s.pcap_stats.udp_packets };
  })
  handle_udp filter e udp s = record s { pcap_stats = count_refused e s.pcap_stats }

  -- `extract_udp_payload` always returns.
  abbrev pub handle_payload : PcapFilter → Option UdpPayload → Session S → Session S
  handle_payload filter none s = s
  handle_payload filter (some udp) s = handle_udp filter udp.error udp s

  -- The body of the loop.
  unfoldable pub handle_packet : PcapFilter → CapturedPacket → Session S → Session S
  handle_packet filter p s =
      handle_payload filter (extract_udp_payload p.bytes p.link_type)
        (record s { pcap_stats = record s.pcap_stats { packets = increment s.pcap_stats.packets } })

  -- The rounds of the loop for the packets of a capture.
  abbrev pub handle_all : PcapFilter → List CapturedPacket → Session S → Session S
  handle_all filter [] s = s
  handle_all filter (p ∷ ps) s = handle_all filter ps (handle_packet filter p s)

  -- The exception that ends the function, if one does, and what it leaves.
  abbrev pub Ending : Type 0
  Ending = Option (Option CaptureError × Session S)

  abbrev pub after_next :
      PcapFilter
      → (CaptureReader → Session S → Ending)
      → Session S
      → Option (Result (Option CapturedPacket × CaptureReader))
      → Ending
  after_next filter loop s none = none
  after_next filter loop s (some (throw e)) = some (some e, s)
  after_next filter loop s (some (ok (none, c))) = some (none, s)
  after_next filter loop s (some (ok (some p, c))) = loop c (handle_packet filter p s)

  -- The loop, with at most `n` rounds; `none` is a loop that goes on.
  unfoldable pub decode_from : ℕ → PcapFilter → CaptureReader → Session S → Ending
  unfolding handle_packet
  decode_from zero filter c s = none
  decode_from (suc n) filter c s = after_next filter (decode_from n filter) s (next c)

  -- The constructor of the reader, and the loop.
  abbrev pub after_open : PcapFilter → Result CaptureReader → Session S → Ending
  after_open filter (throw e) s = some (some e, s)
  after_open filter (ok c) s = decode_from (length c.input + 1) filter c s

  -- Every round of the loop takes bytes of the file.
  unfoldable pub decode_capture : List ℕ → PcapFilter → Session S → Ending
  unfolding decode_from
  decode_capture file filter s = after_open filter (open_capture file) s
