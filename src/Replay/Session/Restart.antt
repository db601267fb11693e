-- ===== src/Replay/Session/Restart.antt =====
-- `decode_capture` of src/pcap.cpp from the first packet of a session on.
use stock_data_engine.Base.{
  ◌+◌, ◌≡◌, ◌⊎◌, inl, inr, refl, ap, true, false, List, ◌∷◌, arith, All, IsU64,
}
use stock_data_engine.Itch.Messages.{Message}
use stock_data_engine.Itch.Mold.{MoldHeader}
use stock_data_engine.Itch.Sequence.{observe, advances, same_session}
use stock_data_engine.Itch.Sequence.Gaps.{Contiguous, total, observe-fresh}
use stock_data_engine.Replay.Types.{PcapFilter}
use stock_data_engine.Replay.Session.{Session, gate, handle_packet, handle_all}
use stock_data_engine.Replay.Session.Messages.{handle_mold-open}
use stock_data_engine.Replay.Session.Stream.{
  Sent, Carries, Receives, Receives-trans, counted, all_messages, packets_of, headers_of,
  handle_packet-Carries, handle_all-Receives,
}

-- The header is the first of all, with no gap open, or the first of another session, be a gap open
-- or not.
abbrev pub IsRestart : {S : Type 0} → MoldHeader → Session S → Type 0
IsRestart h s =
    ((s.sequence_tracker.initialized ≡ false) × (s.sequence_valid ≡ true))
    ⊎ ((s.sequence_tracker.initialized ≡ true)
        × (same_session h.session s.sequence_tracker.session ≡ false))

module _ {S : Type 0} (callback : S → Message → S) where
  -- The gate is open, or opens again.
  gate-restart :
      (s : Session S) (h : MoldHeader)
      → IsRestart h s
      → gate s h ≡ (
        true,
        record s { sequence_valid = true; sequence_tracker = (observe s.sequence_tracker h).1 },
      )
  unfolding gate observe
  gate-restart s h (inl (off, valid)) = rw (off, valid) refl
  gate-restart s h (inr (on, other)) = rw (on, other) refl

  module _ (filter : PcapFilter) where
    handle_packet-restart :
        (x : Sent) (s : Session S)
        → Carries filter x
        → IsRestart x.header s
        → IsU64 (x.header.sequence + advances x.header)
        → Receives callback x.header.session
            (x.header.sequence + advances x.header)
            x.messages
            s
            (handle_packet callback filter x.packet s)
    handle_packet-restart x s c begins fits =
        let fresh =
          (observe-fresh s.sequence_tracker x.header fits
            (elim begins [ inl first ↦ inl first.0 | inr other ↦ inr other.1 ])).0 in
        let passed = gate-restart (counted s) x.header begins in
        rw
          (
            handle_packet-Carries callback filter x s c,
            handle_mold-open callback x.header x.messages (counted s) c.5 (ap (λ r. r.0) passed),
            passed,
            fresh,
          )
          (refl, refl, refl, refl, refl, (refl, refl, refl))

    -- From the first packet of a session on: the first packet of all while no gap is open, or one
    -- of another session than the tracked one, even while a gap is open, and packets behind it, in
    -- datagrams that pass the filter, that follow one another in that session from the number of
    -- the first, whatever it is, within 64-bit sequence numbers. Each has a header that fits its
    -- fields and as many messages as it counts, fewer than 65,535 and none in a heartbeat, or ends
    -- the session with none; each message is the encoding of one of the 22 types with fields that
    -- fit the wire format, an operational halt with its action for a market code. Then the callback
    -- gets all of their messages, in order and nothing else, all are counted as decoded, no gap and
    -- no missing message is counted, no gap is open, and the number after the last is expected.
    pub handle_all-restart :
        (x : Sent) (xs : List Sent) (s : Session S)
        → All (Carries filter) (x ∷ xs)
        → IsRestart x.header s
        → Contiguous x.header.session x.header.sequence (headers_of (x ∷ xs))
        → IsU64 (x.header.sequence + total (headers_of (x ∷ xs)))
        → Receives callback x.header.session
            (x.header.sequence + total (headers_of (x ∷ xs)))
            (all_messages (x ∷ xs))
            s
            (handle_all callback filter (packets_of (x ∷ xs)) s)
    handle_all-restart x xs s c begins line fits =
        let session = x.header.session in
        let one = handle_packet-restart x s c.0 begins (omega arith) in
        let rest =
          handle_all-Receives callback filter session xs (handle_packet callback filter x.packet s)
            (x.header.sequence + advances x.header) c.1 one.4 one.5 line.2 (omega arith) in
        Receives-trans callback filter session x.messages (all_messages xs) s
          (handle_packet callback filter x.packet s)
          (handle_all callback filter (packets_of (x ∷ xs)) s)
          (x.header.sequence + advances x.header) (x.header.sequence + total (headers_of (x ∷ xs)))
          one
          (rest.0, rest.1, rest.2, rest.3, rest.4, (rest.5.0, rest.5.1, omega (arith, rest.5.2)))
