-- ===== src/Replay/Session/Tests.antt =====
-- `decode_capture` of src/pcap.cpp in order, after a gap and from a new session on.
use stock_data_engine.Base.{ℕ, ◌≡◌, refl, true, false, Option, some, [], ◌∷◌, arith, inr}
use stock_data_engine.Itch.Mold.{MoldHeader}
use stock_data_engine.Replay.Types.{no_stats}
use stock_data_engine.Replay.Udp.Ipv4.{Datagram, ip_bytes}
use stock_data_engine.Replay.Udp.Ethernet.{ethernet_bytes}
use stock_data_engine.Replay.Capture.Input.{CaptureError, CapturedPacket}
use stock_data_engine.Replay.Session.{Session, handle_all, decode_capture}
use stock_data_engine.Replay.Session.Messages.{packet_bytes}
use stock_data_engine.Replay.Session.Stream.{Receives, handle_all-Receives}
use stock_data_engine.Replay.Session.Restart.{handle_all-restart}
use stock_data_engine.Replay.Session.Whole.{decode_capture-total}
use stock_data_engine.Replay.Runner.{no_decodes}
use stock_data_engine.Itch.Sequence.{same_session}
use stock_data_engine.Replay.Samples.{
  count_messages, delete, header_of_number, datagram, macs, tags, sent, filter, sent-Carries,
}

-- The session is tracked, and number 9 is expected.
abbrev tracking : Session ℕ
tracking = record {
  pcap_stats = no_stats;
  decoder_stats = no_decodes;
  sequence_tracker = record {
    session = (header_of_number 9).session;
    expected = 9;
    initialized = true;
  };
  sequence_valid = true;
  user = 0;
}

handle_all-Receives_example :
    (handle_all count_messages filter ((sent 9).packet ∷ (sent 10).packet ∷ []) tracking).user ≡ 2
handle_all-Receives_example =
    (handle_all-Receives count_messages filter (header_of_number 9).session (sent 9 ∷ sent 10 ∷ [])
      tracking 9 (sent-Carries 9 (omega arith), (sent-Carries 10 (omega arith), tt)) refl
      (refl, refl, refl) (refl, refl, (refl, refl, tt)) (omega arith)).0

-- A heartbeat that announces number 12.
abbrev heartbeat_header : MoldHeader
heartbeat_header = record (header_of_number 12) { message_count = 0 }

abbrev heartbeat_datagram : Datagram
heartbeat_datagram = record (datagram 12) { payload = packet_bytes heartbeat_header [] }

abbrev heartbeat_packet : CapturedPacket
heartbeat_packet = record {
  bytes = ethernet_bytes macs tags (ip_bytes heartbeat_datagram []);
  link_type = 1;
}

-- A gap is open in another session.
abbrev withholding : Session ℕ
withholding = record tracking {
  sequence_tracker = record tracking.sequence_tracker { session = [] };
  sequence_valid = false;
}

handle_all-restart_example :
    Receives count_messages
      (header_of_number 9).session
      11
      (delete ∷ delete ∷ [])
      withholding
      (handle_all count_messages filter ((sent 9).packet ∷ (sent 10).packet ∷ []) withholding)
unfolding same_session
handle_all-restart_example =
    handle_all-restart count_messages filter (sent 9) (sent 10 ∷ []) withholding
      (sent-Carries 9 (omega arith), (sent-Carries 10 (omega arith), tt)) (inr (refl, refl))
      (refl, refl, (refl, refl, tt)) (omega arith)

decode_capture-total_example :
    (r : Option CaptureError × Session ℕ) × (decode_capture count_messages
        (1 ∷ 2 ∷ [])
        filter
        tracking
      ≡ some r)
decode_capture-total_example = decode_capture-total count_messages filter (1 ∷ 2 ∷ []) tracking
