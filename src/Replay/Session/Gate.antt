-- ===== src/Replay/Session/Gate.antt =====
-- The sequence gate of `decode_capture` in src/pcap.cpp: what is withheld after a gap.
use stock_data_engine.Base.{
  ℕ, ◌≡◌, ◌⊎◌, inl, inr, refl, sym, ◌∙◌, Bool, true, false, Option, none, some, List, [], ◌∷◌,
  arith, All, Bool-cases,
}
use stock_data_engine.Itch.Messages.{Message}
use stock_data_engine.Itch.Mold.{MoldHeader, MoldError, MoldResult, read_header, decode}
use stock_data_engine.Itch.Sequence.{SequenceTracker, SequenceStatus, observe, same_session}
use stock_data_engine.Itch.Sequence.Gaps.{same_session_refl}
use stock_data_engine.Replay.Types.{PacketError, UdpPayload, PcapFilter, matches}
use stock_data_engine.Replay.Udp.{extract_udp_payload}
use stock_data_engine.Replay.Capture.Input.{CapturedPacket}
use stock_data_engine.Replay.Session.{
  Session, increment, gate, after_mold, on_message, handle_mold, accepted_udp, handle_all,
  handle_udp, handle_payload, handle_packet,
}

-- If the gate is shut to a packet's header, the packet changes no more than the gate does.
decode-blocked :
    {S : Type 0} (callback : S → List ℕ → ℕ → S) (door : S → MoldHeader → Bool × S)
    (packet : List ℕ) (s : S)
    → (door s (read_header packet)).0 ≡ false
    → ((decode callback door packet s).1 ≡ s)
      ⊎ ((decode callback door packet s).1 ≡ (door s (read_header packet)).1)
unfolding decode
decode-blocked callback door packet s shut = ground (arith, shut)

-- A gap was met in the session, and no other session began since.
abbrev pub IsShut : {S : Type 0} → List ℕ → Session S → Type 0
IsShut session s =
    (s.sequence_valid ≡ false)
    × (s.sequence_tracker.initialized ≡ true)
    × (s.sequence_tracker.session ≡ session)

-- Nothing was handed to the parser or the callback.
abbrev pub Withheld : {S : Type 0} → List ℕ → Session S → Session S → Type 0
Withheld session s s' =
    IsShut session s' × (s'.user ≡ s.user) × (s'.decoder_stats ≡ s.decoder_stats)

observe-kept :
    (t : SequenceTracker) (h : MoldHeader)
    → t.initialized ≡ true
    → h.session ≡ t.session
    → (((observe t h).0.status ≡ SequenceStatus.gap)
        ⊎ (((observe t h).0.status ≡ SequenceStatus.rewind)
            ⊎ ((observe t h).0.status ≡ SequenceStatus.in_order)))
      × ((observe t h).1.initialized ≡ true)
      × ((observe t h).1.session ≡ t.session)
unfolding observe
observe-kept t h on same = ground (arith, agree)
  where
    agree : same_session h.session t.session ≡ true
    agree = rw same (same_session_refl t.session)

-- The packet's datagram, if it has one, is of the session.
abbrev pub OfSession : List ℕ → CapturedPacket → Type 0
OfSession session p =
    (udp : UdpPayload)
    → extract_udp_payload p.bytes p.link_type ≡ some udp
    → (read_header udp.bytes).session ≡ session

module _ {S : Type 0} (session : List ℕ) where
  gate-shut :
      (s : Session S) (h : MoldHeader)
      → IsShut session s
      → h.session ≡ session
      → ((gate s h).0 ≡ false) × Withheld session s (gate s h).1
  unfolding gate
  gate-shut s h v e =
      let (status, on, same) = observe-kept s.sequence_tracker h v.1 (e ∙ sym v.2) in
      elim status [
        | inl g ↦ rw g (refl, ((refl, on, same ∙ v.2), refl, refl))
        | inr (inl r) ↦ rw r (refl, ((v.0, on, same ∙ v.2), refl, refl))
        | inr (inr o) ↦ rw o (v.0, ((v.0, on, same ∙ v.2), refl, refl))
      ]

  mold_error-Withheld :
      (e : MoldError) (r : MoldResult) (s s' : Session S)
      → r.error ≡ e
      → Withheld session s s'
      → Withheld session s (after_mold r s')
  mold_error-Withheld MoldError.none r s s' is w = rw is w
  mold_error-Withheld MoldError.header_too_short r s s' is w = rw is w
  mold_error-Withheld MoldError.invalid_control_packet r s s' is w = rw is w
  mold_error-Withheld MoldError.truncated_message_length r s s' is w = rw is w
  mold_error-Withheld MoldError.truncated_message r s s' is w = rw is w
  mold_error-Withheld MoldError.trailing_bytes r s s' is w = rw is w

  after_mold-Withheld :
      (r : MoldResult) (s s' : Session S)
      → Withheld session s s'
      → Withheld session s (after_mold r s')
  after_mold-Withheld r s s' w = mold_error-Withheld r.error r s s' refl w

  module _ (callback : S → Message → S) where
    handle_mold-Withheld :
        (bytes : List ℕ) (s : Session S)
        → IsShut session s
        → (read_header bytes).session ≡ session
        → Withheld session s (handle_mold callback bytes s)
    unfolding handle_mold
    handle_mold-Withheld bytes s v e =
        let (shut, w) = gate-shut s (read_header bytes) v e in
        elim (decode-blocked (on_message callback) gate bytes s shut) [
          | inl p ↦
              after_mold-Withheld (decode (on_message callback) gate bytes s).0 s
                (decode (on_message callback) gate bytes s).1 (rw p (v, refl, refl))
          | inr p ↦
              after_mold-Withheld (decode (on_message callback) gate bytes s).0 s
                (decode (on_message callback) gate bytes s).1 (rw p w)
        ]

    accepted_udp-Withheld :
        (filter : PcapFilter) (udp : UdpPayload) (s : Session S)
        → IsShut session s
        → (read_header udp.bytes).session ≡ session
        → Withheld session s (accepted_udp callback filter udp s)
    accepted_udp-Withheld filter udp s v e = elim (Bool-cases (matches filter udp)) [
      | inl y ↦ rw y (handle_mold-Withheld udp.bytes s v e)
      | inr n ↦ rw n (v, refl, refl)
    ]

    handle_udp-Withheld :
        (filter : PcapFilter) (e : PacketError) (udp : UdpPayload) (s : Session S)
        → IsShut session s
        → (read_header udp.bytes).session ≡ session
        → Withheld session s (handle_udp callback filter e udp s)
    handle_udp-Withheld filter PacketError.none udp s v e = accepted_udp-Withheld filter udp _ v e
    handle_udp-Withheld filter PacketError.unsupported_link_type udp s v e = (v, refl, refl)
    handle_udp-Withheld filter PacketError.truncated_ethernet udp s v e = (v, refl, refl)
    handle_udp-Withheld filter PacketError.unsupported_network_protocol udp s v e = (v, refl, refl)
    handle_udp-Withheld filter PacketError.truncated_ip udp s v e = (v, refl, refl)
    handle_udp-Withheld filter PacketError.fragmented_ip udp s v e = (v, refl, refl)
    handle_udp-Withheld filter PacketError.non_udp udp s v e = (v, refl, refl)
    handle_udp-Withheld filter PacketError.truncated_udp udp s v e = (v, refl, refl)

    handle_packet-Withheld :
        (filter : PcapFilter) (p : CapturedPacket) (s : Session S)
        → IsShut session s
        → OfSession session p
        → Withheld session s (handle_packet callback filter p s)
    unfolding handle_packet
    handle_packet-Withheld filter p s v of_session =
        by_payload (extract_udp_payload p.bytes p.link_type) refl
      where
        by_payload :
            (o : Option UdpPayload)
            → extract_udp_payload p.bytes p.link_type ≡ o
            → Withheld session s (
                handle_payload callback filter o (record s {
                  pcap_stats = record s.pcap_stats { packets = increment s.pcap_stats.packets };
                }))
        by_payload none is = (v, refl, refl)
        by_payload (some udp) is =
            handle_udp-Withheld filter udp.error udp
              (record s {
                pcap_stats = record s.pcap_stats { packets = increment s.pcap_stats.packets };
              })
              v (of_session udp is)

    -- After a gap, packets of the same session deliver nothing, however many there are and whatever
    -- they hold: no message reaches the parser or the callback, and the gap stays.
    pub handle_all-Withheld :
        (filter : PcapFilter) (ps : List CapturedPacket) (s : Session S)
        → IsShut session s
        → All (OfSession session) ps
        → Withheld session s (handle_all callback filter ps s)
    handle_all-Withheld filter [] s v a = (v, refl, refl)
    handle_all-Withheld filter (p ∷ ps) s v a =
        let (v', u, d) = handle_packet-Withheld filter p s v a.0 in
        let (v'', u', d') =
          handle_all-Withheld filter ps (handle_packet callback filter p s) v' a.1 in
        (v'', u' ∙ u, d' ∙ d)
