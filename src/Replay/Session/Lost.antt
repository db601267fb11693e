-- ===== src/Replay/Session/Lost.antt =====
-- `decode_capture` of src/pcap.cpp when packets of a session are lost.
use stock_data_engine.Replay.Session.{Session}
