-- ===== src/Replay/Session/Callback.antt =====
-- What the callback of `decode_capture` in src/pcap.cpp does with its state touches nothing else: two
-- callbacks that agree up to a function on their states lead to states that do.
use stock_data_engine.Base.{
  ℕ, zero, suc, ◌≡◌, refl, sym, ap, ◌∙◌, Option, none, some, List, length, ◌+◌, Bool-cases, inl,
  inr,
}
use stock_data_engine.Itch.Messages.{Message, ParseError, ParseResult}
use stock_data_engine.Itch.Parser.{parse_message}
use stock_data_engine.Itch.Mold.{MoldHeader, MoldError, MoldResult, decode}
use stock_data_engine.Itch.Mold.Callback.{decode-over}
use stock_data_engine.Itch.Sequence.{SequenceStatus, observe}
use stock_data_engine.Replay.Types.{PacketError, UdpPayload, PcapFilter, matches}
use stock_data_engine.Replay.Udp.{extract_udp_payload}
use stock_data_engine.Replay.Capture.Input.{Result, throw, ok, CapturedPacket, CaptureReader}
use stock_data_engine.Replay.Capture.{open_capture, next}
use stock_data_engine.Replay.Session.{
  Session, increment, admit, gate, after_mold, on_parsed, on_reply, on_message, handle_mold,
  accepted_udp, handle_udp, handle_payload, handle_packet, Ending, after_next, decode_from,
  after_open, decode_capture,
}

-- The session with another state of the callback's.
abbrev pub with_user : {S T : Type 0} → (S → T) → Session S → Session T
with_user h s = record {
  pcap_stats = s.pcap_stats;
  decoder_stats = s.decoder_stats;
  sequence_tracker = s.sequence_tracker;
  sequence_valid = s.sequence_valid;
  user = h s.user;
}

module _ {S T : Type 0} (h : S → T) where
  admit-with_user :
      (status : SequenceStatus) (missing : ℕ) (s : Session S)
      → admit status missing (with_user h s)
        ≡ ((admit status missing s).0, with_user h (admit status missing s).1)
  admit-with_user SequenceStatus.initialized missing s = refl
  admit-with_user SequenceStatus.in_order missing s = refl
  admit-with_user SequenceStatus.gap missing s = refl
  admit-with_user SequenceStatus.rewind missing s = refl
  admit-with_user SequenceStatus.new_session missing s = refl

  gate-with_user :
      (s : Session S) (header : MoldHeader)
      → gate (with_user h s) header ≡ ((gate s header).0, with_user h (gate s header).1)
  unfolding gate
  gate-with_user s header =
      admit-with_user (observe s.sequence_tracker header).0.status
        (observe s.sequence_tracker header).0.missing
        (record s { sequence_tracker = (observe s.sequence_tracker header).1 })

  mold_error-with_user :
      (e : MoldError) (r : MoldResult) (s : Session S)
      → r.error ≡ e
      → after_mold r (with_user h s) ≡ with_user h (after_mold r s)
  mold_error-with_user MoldError.none r s is = rw is refl
  mold_error-with_user MoldError.header_too_short r s is = rw is refl
  mold_error-with_user MoldError.invalid_control_packet r s is = rw is refl
  mold_error-with_user MoldError.truncated_message_length r s is = rw is refl
  mold_error-with_user MoldError.truncated_message r s is = rw is refl
  mold_error-with_user MoldError.trailing_bytes r s is = rw is refl

  module _ (f : S → Message → S) (g : T → Message → T)
      (agree : (s : S) (m : Message) → h (f s m) ≡ g (h s) m) where
    on_parsed-with_user :
        (e : ParseError) (m : Message) (s : Session S)
        → on_parsed g e m (with_user h s) ≡ with_user h (on_parsed f e m s)
    on_parsed-with_user ParseError.none m s =
        ap (λ u. with_user (λ _. u) (on_parsed f ParseError.none m s)) (sym (agree s.user m))
    on_parsed-with_user ParseError.empty m s = refl
    on_parsed-with_user ParseError.unsupported_type m s = refl
    on_parsed-with_user ParseError.wrong_length m s = refl
    on_parsed-with_user ParseError.invalid_side m s = refl

    on_reply-with_user :
        (r : Option ParseResult) (s : Session S)
        → on_reply g r (with_user h s) ≡ with_user h (on_reply f r s)
    on_reply-with_user none s = refl
    on_reply-with_user (some r) s = on_parsed-with_user r.error r.message s

    on_message-with_user :
        (s : Session S) (bytes : List ℕ) (n : ℕ)
        → on_message g (with_user h s) bytes n ≡ with_user h (on_message f s bytes n)
    unfolding on_message
    on_message-with_user s bytes n = on_reply-with_user (parse_message bytes) s

    handle_mold-with_user :
        (bytes : List ℕ) (s : Session S)
        → handle_mold g bytes (with_user h s) ≡ with_user h (handle_mold f bytes s)
    unfolding handle_mold
    handle_mold-with_user bytes s =
        rw
          (decode-over (on_message f) (on_message g) gate gate (with_user h) on_message-with_user
            gate-with_user bytes s)
          (mold_error-with_user (decode (on_message f) gate bytes s).0.error
            (decode (on_message f) gate bytes s).0 (decode (on_message f) gate bytes s).1 refl)

    accepted_udp-with_user :
        (filter : PcapFilter) (udp : UdpPayload) (s : Session S)
        → accepted_udp g filter udp (with_user h s) ≡ with_user h (accepted_udp f filter udp s)
    accepted_udp-with_user filter udp s = elim (Bool-cases (matches filter udp)) [
      | inl y ↦ rw y (handle_mold-with_user udp.bytes s)
      | inr n ↦ rw n refl
    ]

    handle_udp-with_user :
        (filter : PcapFilter) (e : PacketError) (udp : UdpPayload) (s : Session S)
        → handle_udp g filter e udp (with_user h s) ≡ with_user h (handle_udp f filter e udp s)
    handle_udp-with_user filter PacketError.none udp s =
        accepted_udp-with_user filter udp (record s {
          pcap_stats = record s.pcap_stats { udp_packets = increment s.pcap_stats.udp_packets };
        })
    handle_udp-with_user filter PacketError.unsupported_link_type udp s = refl
    handle_udp-with_user filter PacketError.truncated_ethernet udp s = refl
    handle_udp-with_user filter PacketError.unsupported_network_protocol udp s = refl
    handle_udp-with_user filter PacketError.truncated_ip udp s = refl
    handle_udp-with_user filter PacketError.fragmented_ip udp s = refl
    handle_udp-with_user filter PacketError.non_udp udp s = refl
    handle_udp-with_user filter PacketError.truncated_udp udp s = refl

    handle_payload-with_user :
        (filter : PcapFilter) (o : Option UdpPayload) (s : Session S)
        → handle_payload g filter o (with_user h s) ≡ with_user h (handle_payload f filter o s)
    handle_payload-with_user filter none s = refl
    handle_payload-with_user filter (some udp) s = handle_udp-with_user filter udp.error udp s

    handle_packet-with_user :
        (filter : PcapFilter) (p : CapturedPacket) (s : Session S)
        → handle_packet g filter p (with_user h s) ≡ with_user h (handle_packet f filter p s)
    unfolding handle_packet
    handle_packet-with_user filter p s =
        handle_payload-with_user filter (extract_udp_payload p.bytes p.link_type) (record s {
          pcap_stats = record s.pcap_stats { packets = increment s.pcap_stats.packets };
        })

    -- An ending, with another state of the callback's.
    abbrev pub ending_with : Ending f → Ending g
    ending_with none = none
    ending_with (some (e, s)) = some (e, with_user h s)

    after_next-with_user :
        (filter : PcapFilter) (loop : CaptureReader → Session S → Ending f)
        (loop' : CaptureReader → Session T → Ending g)
        → ((c : CaptureReader) (s : Session S) → loop' c (with_user h s) ≡ ending_with (loop c s))
        → (s : Session S) (o : Option (Result (Option CapturedPacket × CaptureReader)))
        → after_next g filter loop' (with_user h s) o ≡ ending_with (after_next f filter loop s o)
    after_next-with_user filter loop loop' same s none = refl
    after_next-with_user filter loop loop' same s (some (throw e)) = refl
    after_next-with_user filter loop loop' same s (some (ok (none, c))) = refl
    after_next-with_user filter loop loop' same s (some (ok (some p, c))) =
        ap (loop' c) (handle_packet-with_user filter p s) ∙ same c (handle_packet f filter p s)

    decode_from-with_user :
        (n : ℕ) (filter : PcapFilter) (c : CaptureReader) (s : Session S)
        → decode_from g n filter c (with_user h s) ≡ ending_with (decode_from f n filter c s)
    unfolding decode_from
    decode_from-with_user zero filter c s = refl
    decode_from-with_user (suc n) filter c s =
        after_next-with_user filter (decode_from f n filter) (decode_from g n filter)
          (decode_from-with_user n filter) s (next c)

    after_open-with_user :
        (filter : PcapFilter) (r : Result CaptureReader) (s : Session S)
        → after_open g filter r (with_user h s) ≡ ending_with (after_open f filter r s)
    after_open-with_user filter (throw e) s = refl
    after_open-with_user filter (ok c) s = decode_from-with_user (length c.input + 1) filter c s

    pub decode_capture-with_user :
        (file : List ℕ) (filter : PcapFilter) (s : Session S)
        → decode_capture g file filter (with_user h s)
          ≡ ending_with (decode_capture f file filter s)
    unfolding decode_capture
    decode_capture-with_user file filter s = after_open-with_user filter (open_capture file) s
