-- ===== src/Replay/Session/Stream.antt =====
-- `decode_capture` of src/pcap.cpp over the packets of a session: all messages in order.
use stock_data_engine.Base.{
  ℕ, ◌+◌, ◌≡◌, refl, sym, ap, ◌∙◌, true, some, List, [], ◌∷◌, ◌++◌, arith, All, IsU64,
}
use stock_data_engine.Itch.Messages.{Message}
use stock_data_engine.Itch.Framed.{DecoderStats}
use stock_data_engine.Itch.Framed.Encoded.{call_all, count_all}
use stock_data_engine.Itch.Mold.{MoldHeader}
use stock_data_engine.Itch.Sequence.{SequenceStatus, observe, advances}
use stock_data_engine.Itch.Sequence.Gaps.{Tracks, Contiguous, total, observe-Tracks}
use stock_data_engine.Replay.Types.{PacketError, UdpPayload, PcapFilter, matches}
use stock_data_engine.Replay.Udp.{extract_udp_payload}
use stock_data_engine.Replay.Capture.Input.{CapturedPacket}
use stock_data_engine.Replay.Session.{
  Session, increment, gate, handle_mold, handle_udp, accepted_udp, handle_packet, handle_all,
}
use stock_data_engine.Replay.Session.Messages.{IsPacket, packet_bytes, handle_mold-open}

-- A captured packet, with the header and the messages that its datagram carries.
pub record Sent : Type 0 where
  pub packet : CapturedPacket
  pub header : MoldHeader
  pub messages : List Message

-- The packet holds a datagram of these bytes that passes the filter.
abbrev pub Holds : PcapFilter → CapturedPacket → List ℕ → Type 0
Holds filter p bytes =
    (udp : UdpPayload) × (extract_udp_payload p.bytes p.link_type ≡ some udp)
    × (udp.error ≡ PacketError.none)
    × (matches filter udp ≡ true)
    × (udp.bytes ≡ bytes)

-- The packet holds a datagram that passes the filter and carries the messages.
abbrev pub Carries : PcapFilter → Sent → Type 0
Carries filter x =
    (udp : UdpPayload) × (extract_udp_payload x.packet.bytes x.packet.link_type ≡ some udp)
    × (udp.error ≡ PacketError.none)
    × (matches filter udp ≡ true)
    × (udp.bytes ≡ packet_bytes x.header x.messages)
    × IsPacket x.header x.messages

-- The session with its packet and its datagram counted.
abbrev pub counted : {S : Type 0} → Session S → Session S
counted s = record s {
  pcap_stats = record s.pcap_stats {
    packets = increment s.pcap_stats.packets;
    udp_packets = increment s.pcap_stats.udp_packets;
  };
}

abbrev pub all_messages : List Sent → List Message
all_messages [] = []
all_messages (x ∷ xs) = x.messages ++ all_messages xs

abbrev pub packets_of : List Sent → List CapturedPacket
packets_of [] = []
packets_of (x ∷ xs) = x.packet ∷ packets_of xs

abbrev pub headers_of : List Sent → List MoldHeader
headers_of [] = []
headers_of (x ∷ xs) = x.header ∷ headers_of xs

count_all-append :
    (c : DecoderStats) (ms ns : List Message)
    → count_all c (ms ++ ns) ≡ count_all (count_all c ms) ns
count_all-append c [] ns = refl
count_all-append c (m ∷ ms) ns = count_all-append (count_all c (m ∷ [])) ms ns

module _ {S : Type 0} (callback : S → Message → S) where
  -- The messages went to the callback and were counted, and number `n` is expected next.
  abbrev pub Receives : List ℕ → ℕ → List Message → Session S → Session S → Type 0
  Receives session n ms s s' =
      (s'.user ≡ call_all callback s.user ms)
      × (s'.decoder_stats ≡ count_all s.decoder_stats ms)
      × (s'.pcap_stats.sequence_gaps ≡ s.pcap_stats.sequence_gaps)
      × (s'.pcap_stats.missing_messages ≡ s.pcap_stats.missing_messages)
      × (s'.sequence_valid ≡ true)
      × Tracks s'.sequence_tracker session n

  call_all-append :
      (s : S) (ms ns : List Message)
      → call_all callback s (ms ++ ns) ≡ call_all callback (call_all callback s ms) ns
  call_all-append s [] ns = refl
  call_all-append s (m ∷ ms) ns = call_all-append (callback s m) ms ns

  pub handle_packet-Holds :
      (filter : PcapFilter) (p : CapturedPacket) (bytes : List ℕ) (s : Session S)
      → Holds filter p bytes
      → handle_packet callback filter p s ≡ handle_mold callback bytes (counted s)
  unfolding handle_packet
  handle_packet-Holds filter p bytes s (udp, extracted, good, passes, same) = rw extracted (
      ap
        (λ e. handle_udp callback filter e udp (record s {
          pcap_stats = record s.pcap_stats { packets = increment s.pcap_stats.packets };
        }))
        good
      ∙ (accepted_udp-matches udp (counted s) passes
          ∙ ap (λ bs. handle_mold callback bs (counted s)) same))
    where
      accepted_udp-matches :
          (udp : UdpPayload) (s : Session S)
          → matches filter udp ≡ true
          → accepted_udp callback filter udp s ≡ handle_mold callback udp.bytes s
      accepted_udp-matches udp s e = rw e refl

  pub handle_packet-Carries :
      (filter : PcapFilter) (x : Sent) (s : Session S)
      → Carries filter x
      → handle_packet callback filter x.packet s
        ≡ handle_mold callback (packet_bytes x.header x.messages) (counted s)
  handle_packet-Carries filter x s (udp, extracted, good, passes, same, _) =
      handle_packet-Holds filter x.packet (packet_bytes x.header x.messages) s
        (udp, extracted, good, passes, same)

  gate-in_order :
      (s : Session S) (h : MoldHeader)
      → (observe s.sequence_tracker h).0.status ≡ SequenceStatus.in_order
      → gate s h
        ≡ (s.sequence_valid, record s { sequence_tracker = (observe s.sequence_tracker h).1 })
  unfolding gate
  gate-in_order s h e = rw e refl

  module _ (filter : PcapFilter) (session : List ℕ) where
    pub Receives-trans :
        (ms ns : List Message) (s s' s'' : Session S) (n m : ℕ)
        → Receives session n ms s s'
        → Receives session m ns s' s''
        → Receives session m (ms ++ ns) s s''
    Receives-trans ms ns s s' s'' n m one rest = (
      rest.0 ∙ (ap (λ u. call_all callback u ns) one.0 ∙ sym (call_all-append s.user ms ns)),
      rest.1 ∙ (ap (λ c. count_all c ns) one.1 ∙ sym (count_all-append s.decoder_stats ms ns)),
      rest.2 ∙ one.2,
      rest.3 ∙ one.3,
      rest.4,
      rest.5,
    )

    handle_packet-Receives :
        (x : Sent) (s : Session S) (n : ℕ)
        → Carries filter x
        → s.sequence_valid ≡ true
        → Tracks s.sequence_tracker session n
        → x.header.session ≡ session
        → x.header.sequence ≡ n
        → IsU64 (n + advances x.header)
        → Receives session
            (n + advances x.header)
            x.messages
            s
            (handle_packet callback filter x.packet s)
    handle_packet-Receives x s n c valid tr hs hn fits =
        let (on_time, tr') = observe-Tracks s.sequence_tracker session n x.header tr hs hn fits in
        let passed = gate-in_order (counted s) x.header on_time in
        rw
          (
            handle_packet-Carries filter x s c,
            handle_mold-open callback x.header x.messages (counted s) c.5
                (ap (λ r. r.0) passed ∙ valid),
            passed,
          )
          (refl, refl, refl, refl, valid, tr')

    -- Packets that hold, in datagrams that pass the filter, the MoldUDP64 packets of the tracked
    -- session, behind one another from the number that is expected, within 64-bit sequence
    -- numbers, while no gap is open. Each has a header that fits its fields and as many messages as
    -- it counts, fewer than 65,535 and none in a heartbeat, or ends the session with none; each
    -- message is the encoding of one of the 22 types with fields that fit the wire format, an
    -- operational halt with its action for a market code. Then the callback gets all of the
    -- messages, in order and nothing else, all are counted as decoded, no gap and no missing
    -- message is counted, and the number after the last message is expected.
    pub handle_all-Receives :
        (xs : List Sent) (s : Session S) (n : ℕ)
        → All (Carries filter) xs
        → s.sequence_valid ≡ true
        → Tracks s.sequence_tracker session n
        → Contiguous session n (headers_of xs)
        → IsU64 (n + total (headers_of xs))
        → Receives session
            (n + total (headers_of xs))
            (all_messages xs)
            s
            (handle_all callback filter (packets_of xs) s)
    handle_all-Receives [] s n c valid tr line fits =
        (refl, refl, refl, refl, valid, (tr.0, tr.1, omega (arith, tr.2)))
    handle_all-Receives (x ∷ xs) s n c valid tr line fits =
        let one = handle_packet-Receives x s n c.0 valid tr line.0 line.1 (omega arith) in
        let rest =
          handle_all-Receives xs (handle_packet callback filter x.packet s) (n + advances x.header)
            c.1 one.4 one.5 line.2 (omega arith) in
        Receives-trans x.messages (all_messages xs) s (handle_packet callback filter x.packet s)
          (handle_all callback filter (packets_of xs) (handle_packet callback filter x.packet s))
          (n + advances x.header) (n + total (headers_of (x ∷ xs))) one
          (rest.0, rest.1, rest.2, rest.3, rest.4, (rest.5.0, rest.5.1, omega (arith, rest.5.2)))
