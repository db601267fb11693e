-- ===== src/Replay/Session/Messages.antt =====
-- What `decode_capture` of src/pcap.cpp makes of MoldUDP64 packets of encoded messages, in order and
-- after a gap.
use stock_data_engine.Base.{
  ℕ, ◌+◌, ◌%◌, ◌^◌, ◌<◌, ◌≡◌, refl, sym, ap, ◌∙◌, true, false, List, [], ◌∷◌, length, map, arith,
  All, ◌⊎◌, inl, inr,
}
use stock_data_engine.Itch.Messages.{Message}
use stock_data_engine.Itch.Parser.Encode.{encode, Fits}
use stock_data_engine.Itch.Parser.RoundTrip.{parse_message-encode}
use stock_data_engine.Itch.Framed.Encoded.{call_all, count_all}
use stock_data_engine.Itch.Mold.{MoldHeader, MoldError, decode}
use stock_data_engine.Itch.Mold.Frames.{frames}
use stock_data_engine.Itch.Mold.Dispatch.{hand_over}
use stock_data_engine.Itch.Mold.Packet.{
  encode_packet, HeaderFits, IsMold, decode-encode, decode-control, decode-shut,
}
use stock_data_engine.Replay.Session.{Session, count_mold, gate, on_message, on_reply, handle_mold}

-- The header fits its fields and counts the messages, which are fewer than 65,535 and none in a
-- heartbeat, or it is that of an end-of-session packet, with no message; and each message's fields
-- fit the wire format.
abbrev pub IsPacket : MoldHeader → List Message → Type 0
IsPacket h ms =
    HeaderFits h
    × (((h.message_count ≡ length ms) × (length ms < 0xffff))
        ⊎ ((h.message_count ≡ 0xffff) × (ms ≡ [])))
    × All Fits ms

abbrev pub packet_bytes : MoldHeader → List Message → List ℕ
packet_bytes h ms = encode_packet h (frames (map encode ms))

module _ {S : Type 0} (callback : S → Message → S) where
  -- The session after messages that were all parsed and handed over.
  abbrev pub heard : List Message → Session S → Session S
  heard ms s = record s {
    decoder_stats = count_all s.decoder_stats ms;
    user = call_all callback s.user ms;
  }

  pub on_message-encode :
      (m : Message) (s : Session S) (n : ℕ)
      → Fits m
      → on_message callback s (encode m) n ≡ heard (m ∷ []) s
  unfolding on_message
  on_message-encode m s n f = ap (λ r. on_reply callback r s) (parse_message-encode m f)

  hand_over-encode :
      (ms : List Message) (sequence index : ℕ) (s : Session S)
      → All Fits ms
      → hand_over (on_message callback) gate (map encode ms) sequence index s ≡ heard ms s
  hand_over-encode [] sequence index s f = refl
  hand_over-encode (m ∷ ms) sequence index s f =
      ap (hand_over (on_message callback) gate (map encode ms) sequence (index + 1))
        (on_message-encode m s ((sequence + index) % 2 ^ 64) f.0)
      ∙ hand_over-encode ms sequence (index + 1) (heard (m ∷ []) s) f.1

  length-encoded : (ms : List Message) → length (map encode ms) ≡ length ms
  length-encoded [] = refl
  length-encoded (m ∷ ms) = omega (arith, length-encoded ms)

  -- What `decode` makes of a packet that the gate lets pass.
  decode-open :
      (h : MoldHeader) (ms : List Message) (s : Session S)
      → IsPacket h ms
      → (gate s h).0 ≡ true
      → decode (on_message callback) gate (packet_bytes h ms) s ≡ (
        record { error = MoldError.none; header = h; messages_decoded = length ms },
        heard ms (gate s h).1,
      )
  decode-open h [] s (fits, counted, f) open_lem =
      decode-control (on_message callback) gate h s fits
        (elim counted [ inl some_lem ↦ inl some_lem.0 | inr last ↦ inr last.0 ])
  decode-open h (m ∷ ms) s (fits, inr (last, empty), f) open_lem = absurd (cc empty)
  decode-open h (m ∷ ms) s (fits, inl (count, small), f) open_lem =
      rw
        (
          decode-encode (on_message callback) gate h (map encode (m ∷ ms)) s fits
              (count ∙ sym (length-encoded (m ∷ ms))) (omega arith)
              (omega (arith, length-encoded ms, small)),
          open_lem,
          hand_over-encode (m ∷ ms) h.sequence 0 (gate s h).1 f,
          length-encoded ms,
        )
        refl

  pub handle_mold-open :
      (h : MoldHeader) (ms : List Message) (s : Session S)
      → IsPacket h ms
      → (gate s h).0 ≡ true
      → handle_mold callback (packet_bytes h ms) s
        ≡ (let s' = heard ms (gate s h).1 in record s' { pcap_stats = count_mold h s'.pcap_stats })
  unfolding handle_mold
  handle_mold-open h ms s v open_lem = rw (decode-open h ms s v open_lem) refl

  pub handle_mold-shut :
      (h : MoldHeader) (ms : List (List ℕ)) (s : Session S)
      → IsMold h ms
      → (gate s h).0 ≡ false
      → handle_mold callback (encode_packet h (frames ms)) s
        ≡ (let s' = (gate s h).1 in record s' { pcap_stats = count_mold h s'.pcap_stats })
  unfolding handle_mold
  handle_mold-shut h ms s v shut = rw (decode-shut (on_message callback) gate h ms s v shut) refl
