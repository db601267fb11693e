-- ===== src/Replay/Session/Whole.antt =====
-- `decode_capture` of src/pcap.cpp on whole files: it ends on every file, and on a PCAP file it
-- handles every packet.
use stock_data_engine.Base.{
  ℕ, zero, suc, ◌+◌, ◌≤◌, ◌<◌, ◌≡◌, refl, Bool, Option, none, some, List, [], ◌∷◌, ◌++◌, length,
  map, arith, All, length-append,
}
use stock_data_engine.Itch.Messages.{Message}
use stock_data_engine.Replay.Types.{PcapFilter}
use stock_data_engine.Replay.Capture.Input.{
  CaptureError, Result, throw, ok, CapturedPacket, CaptureReader,
}
use stock_data_engine.Replay.Capture.{open_capture, next, next_classic}
use stock_data_engine.Replay.Capture.Progress.{holds}
use stock_data_engine.Replay.Capture.Total.{Answer, next-total}
use stock_data_engine.Replay.Capture.Written.{
  Written, IsWritten, record_header, records, file_bytes, packet_of, reader, open_capture-file,
  next_classic-record, length-record_header,
}
use stock_data_engine.Replay.Session.{
  Session, handle_packet, handle_all, Ending, after_next, decode_from, after_open, decode_capture,
}

module _ {S : Type 0} (callback : S → Message → S) (filter : PcapFilter) where
  -- It ended, with an exception or without.
  abbrev Ended : Ending callback → Type 0
  Ended o = (r : Option CaptureError × Session S) × (o ≡ some r)

  after_next-Ended :
      (n : ℕ) (loop : CaptureReader → Session S → Ending callback) (s : Session S)
      → ((c : CaptureReader) (s : Session S) → length c.input < n → Ended (loop c s))
      → (o : Option (Result (Option CapturedPacket × CaptureReader))) → Answer n o
      → Ended (after_next callback filter loop s o)
  after_next-Ended n loop s more o (throw e, is, _) = rw is ((some e, s), refl)
  after_next-Ended n loop s more o (ok (none, c), is, _) = rw is ((none, s), refl)
  after_next-Ended n loop s more o (ok (some p, c), is, holds v) =
      rw is (more c (handle_packet callback filter p s) v.0)

  decode_from-Ended :
      (n : ℕ) (c : CaptureReader) (s : Session S)
      → length c.input < n
      → Ended (decode_from callback n filter c s)
  unfolding decode_from
  decode_from-Ended zero c s h = elim h [ ]
  decode_from-Ended (suc n) c s h =
      after_next-Ended (length c.input) (decode_from callback n filter) s
        (λ c' s' l. decode_from-Ended n c' s' (omega (arith, l, h))) (next c) (next-total c)

  -- It ends on every file, of any content: with an exception of the reader, or at the end.
  pub decode_capture-total :
      (file : List ℕ) (s : Session S)
      → (r : Option CaptureError × Session S) × (decode_capture callback file filter s ≡ some r)
  unfolding decode_capture
  decode_capture-total file s = opened (open_capture file)
    where
      opened : (r : Result CaptureReader) → Ended (after_open callback filter r s)
      opened (throw e) = ((some e, s), refl)
      opened (ok c) = decode_from-Ended (length c.input + 1) c s (omega arith)

  decode_from-records :
      (little : Bool) (link : ℕ) (ws : List Written) (n : ℕ) (s : Session S)
      → All IsWritten ws
      → length ws < n
      → decode_from callback n filter (reader little link (records little ws)) s
        ≡ some (none, handle_all callback filter (map (packet_of link) ws) s)
  unfolding decode_from next
  decode_from-records little link ws zero s v h = elim h [ ]
  decode_from-records little link [] (suc n) s v h = unfold next_classic in refl
  decode_from-records little link (w ∷ ws) (suc n) s v h =
      rw (next_classic-record little link w (records little ws) v.0) (
        decode_from-records little link ws n (handle_packet callback filter (packet_of link w) s)
          v.1 (omega (arith, h)))

  length-records :
      (little : Bool) (ws : List Written)
      → All IsWritten ws
      → length ws ≤ length (records little ws)
  length-records little [] v = omega arith
  length-records little (w ∷ ws) v = omega (
    arith,
    length-records little ws v.1,
    length-append (record_header little w) (w.bytes ++ records little ws),
    length-append w.bytes (records little ws),
    length-record_header little w v.0,
  )

  -- A PCAP file in either byte order, with stamps in microseconds or nanoseconds, of packets of at most
  -- 65,536 bytes that may be cut: every packet is handled, in order, and there is no exception.
  pub decode_capture-file :
      (little nanoseconds : Bool) (middle : List ℕ) (link : ℕ) (ws : List Written) (s : Session S)
      → length middle ≡ 12
      → All IsWritten ws
      → decode_capture callback (file_bytes little nanoseconds middle link ws) filter s
        ≡ some (none, handle_all callback filter (map (packet_of link) ws) s)
  unfolding decode_capture
  decode_capture-file little nanoseconds middle link ws s twelve v =
      rw (open_capture-file little nanoseconds middle link (records little ws) twelve) (
        decode_from-records little link ws (length (records little ws) + 1) s v
          (omega (arith, length-records little ws v)))
