-- ===== src/Itch/Mold/Packet.antt =====
-- Whole MoldUDP64 packets: what `MoldDecoder::decode` makes of a well-formed one, and that it
-- accepts no other.
use stock_data_engine.Base.{
  ℕ, ◌+◌, ◌≤◌, ◌<◌, ◌≡◌, ◌≢◌, ◌⊎◌, inl, inr, refl, List, [], ◌∷◌, ◌++◌, length, drop, arith,
  length-append, All, IsBytes, Bool, false, if◌then◌else◌, take-append_eq, drop-append_add, IsU64,
  IsU16,
}
use stock_data_engine.Itch.Parser.Fields.{be16, be64}
use stock_data_engine.Itch.Mold.{MoldHeader, none, read_u16, read_u64, read_header, decode, stopped}
use stock_data_engine.Itch.Mold.Frames.{
  frames, Short, validate-frames, validate_sound, IsBytes-drop,
}
use stock_data_engine.Itch.Mold.Dispatch.{hand_over, dispatch-frames}

abbrev pub encode_header : MoldHeader → List ℕ
encode_header h = h.session ++ (be64 h.sequence ++ be16 h.message_count)

abbrev pub encode_packet : MoldHeader → List ℕ → List ℕ
encode_packet h body = h.session ++ (be64 h.sequence ++ (be16 h.message_count ++ body))

abbrev pub HeaderFits : MoldHeader → Type 0
HeaderFits h = (length h.session ≡ 10) × IsU64 h.sequence × IsU16 h.message_count

module _ (h : MoldHeader) (body : List ℕ) (fits : HeaderFits h) where
  sequence_back : read_u64 (be64 h.sequence ++ (be16 h.message_count ++ body)) ≡ h.sequence
  unfolding read_u64
  sequence_back = omega (arith, fits.1)

  count_back : read_u16 (be16 h.message_count ++ body) ≡ h.message_count
  unfolding read_u16
  count_back = omega (arith, fits.2)

  read_header-encode : read_header (encode_packet h body) ≡ h
  unfolding read_header
  read_header-encode = ground (
    arith,
    take-append_eq 10 h.session (be64 h.sequence ++ (be16 h.message_count ++ body)) fits.0,
    drop-append_add 10 0 10 h.session (be64 h.sequence ++ (be16 h.message_count ++ body)) fits.0
        refl,
    drop-append_add 10 8 18 h.session (be64 h.sequence ++ (be16 h.message_count ++ body)) fits.0
        refl,
    sequence_back,
    count_back,
  )

  drop-encode : drop 20 (encode_packet h body) ≡ body
  drop-encode =
      drop-append_add 10 10 20 h.session (be64 h.sequence ++ (be16 h.message_count ++ body)) fits.0
        refl

  length-encode : length (encode_packet h body) ≡ 20 + length body
  length-encode =
      omega (arith, length-append h.session (be64 h.sequence ++ (be16 h.message_count ++ body)))

-- A packet of the protocol: a header that fits its fields, and as many messages, of any bytes, as it
-- counts, which are none in a heartbeat; or an end-of-session packet, with no message.
abbrev pub IsMold : MoldHeader → List (List ℕ) → Type 0
IsMold h ms =
    HeaderFits h
    × (((h.message_count ≡ length ms) × (length ms < 0xffff))
        ⊎ ((h.message_count ≡ 0xffff) × (ms ≡ [])))

module _ {S : Type 0} (callback : S → List ℕ → ℕ → S) (gate : S → MoldHeader → Bool × S) where
  -- A packet with at least one and fewer than 65535 messages, a header that fits its fields and
  -- the right count, that frames its messages is decoded in full: if the gate lets its header
  -- pass, the callback gets each message in order, with consecutive sequence numbers, and all are
  -- counted; if not, only the gate acts.
  pub decode-encode :
      (h : MoldHeader) (ms : List (List ℕ)) (s : S)
      → HeaderFits h
      → h.message_count ≡ length ms
      → 0 < length ms
      → length ms < 0xffff
      → decode callback gate (encode_packet h (frames ms)) s ≡ (
          if (gate s h).0
          then (
            record { error = none; header = h; messages_decoded = length ms },
            hand_over callback gate ms h.sequence 0 (gate s h).1,
          )
          else (stopped none h, (gate s h).1))
  unfolding decode
  decode-encode h ms s fits count pos small = ground (
    arith,
    read_header-encode h (frames ms) fits,
    drop-encode h (frames ms) fits,
    length-encode h (frames ms) fits,
    validate-frames ms,
    dispatch-frames callback gate ms h.sequence 0 (gate s h).1,
    count,
  )

  -- A heartbeat or an end-of-session packet goes through the gate, and does nothing else.
  pub decode-control :
      (h : MoldHeader) (s : S)
      → HeaderFits h
      → (h.message_count ≡ 0) ⊎ (h.message_count ≡ 0xffff)
      → decode callback gate (encode_packet h []) s ≡ (stopped none h, (gate s h).1)
  unfolding decode
  decode-control h s fits alone =
      ground (arith, read_header-encode h [] fits, length-encode h [] fits, alone)

  -- If the gate is shut to a packet of any kind, only the gate acts.
  pub decode-shut :
      (h : MoldHeader) (ms : List (List ℕ)) (s : S)
      → IsMold h ms
      → (gate s h).0 ≡ false
      → decode callback gate (encode_packet h (frames ms)) s ≡ (stopped none h, (gate s h).1)
  decode-shut h [] s (fits, inl (count, small)) shut = decode-control h s fits (inl count)
  decode-shut h (m ∷ ms) s (fits, inl (count, small)) shut =
      rw (decode-encode h (m ∷ ms) s fits count (omega arith) small, shut) refl
  decode-shut h ms s (fits, inr (last, empty)) shut = rw empty (decode-control h s fits (inr last))

  -- A packet of bytes that is neither shorter than a header nor a control packet is accepted only
  -- if its body frames exactly as many messages as the header counts, each shorter than 65536
  -- bytes.
  pub decode-accepts :
      (packet : List ℕ) (s : S)
      → IsBytes packet
      → 20 ≤ length packet
      → (read_header packet).message_count ≢ 0
      → (read_header packet).message_count ≢ 0xffff
      → (decode callback gate packet s).0.error ≡ none
      → (ms : List (List ℕ)) × (length ms ≡ (read_header packet).message_count)
        × (drop 20 packet ≡ frames ms)
        × All Short ms
  unfolding decode
  decode-accepts packet s bytes long alive open_session e =
      validate_sound (read_header packet).message_count (drop 20 packet)
        (IsBytes-drop 20 packet bytes) (ground arith)
