-- ===== src/Replay/Capture/Total.antt =====
-- The loops of `CaptureReader` in src/pcap.cpp end, and its packets are within the limit.
use stock_data_engine.Base.{
  ℕ, zero, suc, ◌+◌, ◌≤◌, ◌<◌, ◌≡◌, refl, Option, none, some, length, arith, ne→==, eq→==, ◌⊎◌,
  take, drop, ltb, ◌||◌, length-drop, ltb→ge, inl, inr,
}
use stock_data_engine.Replay.Capture.Fields.{read32, maximum_packet_size}
use stock_data_engine.Replay.Capture.Input.{
  Result, throw, ok, Format, pcap, pcapng, CapturedPacket, CaptureReader, with_input,
}
use stock_data_engine.Replay.Capture.Blocks.{Round, again, return, next_block}
use stock_data_engine.Replay.Capture.{go_on, next_classic, next_pcapng, next_of, next}
use stock_data_engine.Replay.Capture.Progress.{
  Ensures, throws, holds, Ensures-check, Ensures-read_exact, take-within, Advances,
  next_block-Ensures,
}

-- What `next` gives on `n` bytes: the end with no byte left, or a packet within the limit.
abbrev pub Shows : ℕ → Option CapturedPacket × CaptureReader → Type 0
Shows n (none, c) = length c.input ≡ 0
Shows n (some p, c) = (length c.input < n) × (length p.bytes ≤ maximum_packet_size)

abbrev pub Answer : ℕ → Option (Result (Option CapturedPacket × CaptureReader)) → Type 0
Answer n o =
    (r : Result (Option CapturedPacket × CaptureReader)) × (o ≡ some r) × Ensures (Shows n) r

go_on-Answer :
    (n m : ℕ) (loop : CaptureReader → Option (Result (Option CapturedPacket × CaptureReader)))
    (again_lem : (c : CaptureReader) → length c.input < n → Answer m (loop c))
    → n ≤ m
    → (r : Result (Round × CaptureReader)) → Ensures (Advances n) r
    → Answer m (go_on loop r)
go_on-Answer n m loop more small (throw e) p = (throw e, refl, throws)
go_on-Answer n m loop more small (ok (return none, c)) (holds p) = (ok (none, c), refl, holds p)
go_on-Answer n m loop more small (ok (return (some q), c)) (holds (p, l)) =
    (ok (some q, c), refl, holds (omega (arith, p, small), l))
go_on-Answer n m loop more small (ok (again, c)) (holds p) = more c p

next_block-end : (c : CaptureReader) → length c.input ≡ 0 → next_block c ≡ ok (return none, c)
unfolding next_block
next_block-end c h = rw (eq→== (length c.input) 0 h) refl

zero_or : (n : ℕ) → (n ≡ 0) ⊎ (0 < n)
zero_or zero = inl refl
zero_or (suc n) = inr (omega arith)

next_pcapng-Answer :
    (n m : ℕ) (c : CaptureReader)
    → length c.input < n
    → length c.input ≤ m
    → Answer m (next_pcapng n c)
unfolding next_pcapng
next_pcapng-Answer zero m c enough fits = elim enough [ ]
next_pcapng-Answer (suc n) m c enough fits = elim (zero_or (length c.input)) [
  | inl e ↦ rw (next_block-end c e) (ok (none, c), refl, holds e)
  | inr more ↦
      go_on-Answer (length c.input) m (next_pcapng n)
        (λ c' l. next_pcapng-Answer n m c' (omega (arith, l, enough)) (omega (arith, l, fits))) fits
        (next_block c) (next_block-Ensures c more)
]

next_classic-Ensures : (c : CaptureReader) → Ensures (Shows (length c.input)) (next_classic c)
unfolding next_classic
next_classic-Ensures c = elim (zero_or (length c.input)) [
  | inl e ↦ rw (eq→== (length c.input) 0 e) (holds e)
  | inr more ↦ rw (ne→== (length c.input) 0 (λ e. omega (arith, e, more))) (
      Ensures-read_exact 16 _ c.input _ (λ room.
        Ensures-check
          (ltb maximum_packet_size captured
            || ltb (read32 (drop 12 (take 16 c.input)) c.little) captured)
          _ _
          (λ fits. Ensures-read_exact captured _ (drop 16 c.input) _ (λ _.
            holds
              {a = (
                some (record {
                  bytes = take captured (drop 16 c.input);
                  link_type = c.classic_link_type;
                }),
                with_input c (drop captured (drop 16 c.input)),
              )}
              (
                omega (arith, room, length-drop 16 c.input, length-drop captured (drop 16 c.input)),
                take-within captured (drop 16 c.input) (grind (arith, fits, ltb→ge)),
              )))))
]
  where
    captured : ℕ
    captured = read32 (drop 8 (take 16 c.input)) c.little

-- `next` ends: on a file of any length and content it throws, or tells the end with the whole file
-- read, or takes bytes from the file and shows a packet of at most 65,536 bytes.
pub next-total : (c : CaptureReader) → Answer (length c.input) (next c)
unfolding next
next-total c = total c c.format
  where
    total : (c : CaptureReader) (f : Format) → Answer (length c.input) (next_of f c)
    total c pcap = (next_classic c, refl, next_classic-Ensures c)
    total c pcapng =
        next_pcapng-Answer (length c.input + 1) (length c.input) c (omega arith) (omega arith)
