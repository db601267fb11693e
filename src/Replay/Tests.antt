-- ===== src/Replay/Tests.antt =====
-- src/pcap.cpp and src/replay.cpp on a capture of one packet, and on the same message framed.
use stock_data_engine.Base.{◌≡◌, refl, true, false, none, some, List, [], ◌∷◌, length, arith, inl}
use stock_data_engine.Itch.Messages.{Message}
use stock_data_engine.Itch.Parser.Encode.{encode}
use stock_data_engine.Itch.Framed.{fresh_decoder, consume}
use stock_data_engine.Itch.Framed.Chunks.{fresh_decoder-IsDecoder}
use stock_data_engine.Itch.Framed.Encoded.{count_all}
use stock_data_engine.Itch.Mold.Frames.{frames}
use stock_data_engine.Book.Feed.{init, fresh_book}
use stock_data_engine.Replay.Types.{UdpPayload, PcapStats, no_stats}
use stock_data_engine.Replay.Udp.{extract_udp_payload}
use stock_data_engine.Replay.Udp.Bounds.{extract_udp_payload-total}
use stock_data_engine.Replay.Udp.Ipv4.{payload_of}
use stock_data_engine.Replay.Udp.Ethernet.{extract_udp_payload-ethernet}
use stock_data_engine.Replay.Capture.{next}
use stock_data_engine.Replay.Capture.Total.{Answer, next-total}
use stock_data_engine.Replay.Capture.Written.{file_bytes, reader, records}
use stock_data_engine.Replay.Session.{Session, start_session, handle_all}
use stock_data_engine.Replay.Session.Restart.{handle_all-restart}
use stock_data_engine.Replay.Session.Whole.{decode_capture-file}
use stock_data_engine.Replay.Runner.{
  Summary, Worker, fresh_worker, process_message, make_result, no_decodes, ok, run_file, run_pcap,
  read_loop,
}
use native.Mathlib.Nat.{dvd_of_mod-eq-zero}
use stock_data_engine.Itch.Sequence.{reset}
use stock_data_engine.Replay.Threads.{Threads}
use stock_data_engine.Replay.Threads.Sample.{after, one_message}
use stock_data_engine.Replay.Threads.Files.{collect}
use stock_data_engine.Replay.Threads.Captures.{produce_capture, threaded_capture, run_pcap-threaded}
use stock_data_engine.Replay.Runner.Whole.{left, read_loop-consume}
use stock_data_engine.Replay.Runner.Feeds.{process_all, run_pcap-run_file}
use stock_data_engine.Replay.Samples.{
  count_messages, delete, datagram, macs, tags, frame_bytes, sent, written, middle, filter, config,
  datagram-IsDatagram, sent-Carries, written-IsWritten,
}

extract_udp_payload-ethernet_example :
    extract_udp_payload (frame_bytes 9) 1 ≡ some (payload_of (datagram 9))
extract_udp_payload-ethernet_example =
    extract_udp_payload-ethernet macs tags (datagram 9) [] refl (datagram-IsDatagram 9)

extract_udp_payload-total_example :
    (udp : UdpPayload) × (extract_udp_payload (4 ∷ 5 ∷ []) 101 ≡ some udp)
extract_udp_payload-total_example = extract_udp_payload-total (4 ∷ 5 ∷ []) 101

next-total_example :
    Answer
      (length (records false (written ∷ [])))
      (next (reader false 1 (records false (written ∷ []))))
next-total_example = next-total (reader false 1 (records false (written ∷ [])))

read_loop-consume_example :
    read_loop count_messages 7 30 true (frames (encode delete ∷ [])) fresh_decoder 0
    ≡ some (
        left count_messages 7
          (omega arith)
          (consume count_messages (frames (encode delete ∷ [])) fresh_decoder 0))
read_loop-consume_example =
    read_loop-consume count_messages 7 (omega arith) 30 (frames (encode delete ∷ [])) fresh_decoder
      0 fresh_decoder-IsDecoder (omega arith)

init-config : init config.max_orders config.max_levels config.symbol ≡ some (fresh_book 2 2 [])
unfolding init
init-config = refl

run_pcap-run_file_example :
    (result : Summary) × (stats : PcapStats) × (stats.sequence_gaps ≡ 0)
    × (result
        ≡ make_result
            (count_all no_decodes (delete ∷ []))
            (process_all (fresh_book 2 2 []) (delete ∷ [])))
    × (run_pcap (λ n. 5) 4 config (file_bytes true false middle 1 (written ∷ [])) filter
        ≡ some (ok result, stats))
    × (run_file (λ n. 5) 4 7 config (some (frames (encode delete ∷ []))) ≡ some (ok result))
run_pcap-run_file_example =
    run_pcap-run_file (λ n. 5) 4 config (fresh_book 2 2 []) init-config true false middle 1
      (written ∷ []) filter (sent 9) [] 7 refl (written-IsWritten, tt) refl
      (sent-Carries 9 (omega arith), tt) (refl, refl, tt) (omega arith) (omega arith)

abbrev no_messages : Session (List Message)
no_messages = start_session no_stats no_decodes []

-- What the producer leaves of the capture.
abbrev produced : Session (List Message)
produced = handle_all collect filter ((sent 9).packet ∷ []) no_messages

produce_capture-file :
    produce_capture (file_bytes true false middle 1 (written ∷ [])) filter ≡ some (none, produced)
unfolding produce_capture
produce_capture-file =
    decode_capture-file collect filter true false middle 1 (written ∷ []) no_messages refl
      (written-IsWritten, tt)

produced-user : produced.user ≡ delete ∷ []
unfolding reset
produced-user =
    (handle_all-restart collect filter (sent 9) [] no_messages (sent-Carries 9 (omega arith), tt)
      (inl (refl, refl)) (refl, refl, tt) (omega arith)).0

abbrev work : Worker → Message → Worker
work = process_message (λ n. 5) 4 config

abbrev end : Threads Message Worker
end =
    after delete work (fresh_worker (fresh_book 2 2 []))
      (work (fresh_worker (fresh_book 2 2 [])) delete)

run_pcap-threaded_example :
    run_pcap (λ n. 5) 4 config (file_bytes true false middle 1 (written ∷ [])) filter
    ≡ some (threaded_capture (none, produced) end)
run_pcap-threaded_example =
    run_pcap-threaded (λ n. 5) 4 config delete 2 (omega arith) (omega arith)
      (dvd_of_mod-eq-zero 2 refl) (file_bytes true false middle 1 (written ∷ [])) filter
      (fresh_book 2 2 []) none produced end init-config produce_capture-file
      (rw produced-user (one_message delete work (fresh_worker (fresh_book 2 2 [])))) refl
