-- ===== src/Replay/Udp/Ipv4.antt =====
-- `extract_udp_payload` of src/pcap.cpp on a UDP datagram in an IPv4 packet.
use stock_data_engine.Base.{
  ℕ, ◌+◌, ◌-◌, ◌*◌, ◌/◌, ◌%◌, ◌^◌, ◌≤◌, ◌<◌, ◌≡◌, refl, sym, ap, ◌∙◌, some, Bool, true, false, List,
  ◌∷◌, ◌++◌, length, take, get_elem?, get_elem?-append_add, arith, if◌then◌else◌, length-append,
  append_assoc, IsU16, drop-append_add, take-append_eq, ge→ltb,
}
use stock_data_engine.Replay.Types.{PacketError, UdpPayload}
use stock_data_engine.Replay.Udp.{
  be16, left, subspan, udp_layer, ip_protocol, ip_fragment, ip_total, ip_version, ip_layer,
}

-- A datagram with the header fields that the extraction does not look at.
pub record Datagram : Type 0 where
  pub tos : ℕ
  pub ident_high : ℕ
  pub ident_low : ℕ
  pub dont_fragment : Bool
  pub ttl : ℕ
  pub addresses : List ℕ
  pub options : List ℕ
  pub source_port : ℕ
  pub destination_port : ℕ
  pub checksum_high : ℕ
  pub checksum_low : ℕ
  pub payload : List ℕ

-- The checksum and the two addresses are 10 bytes, the options whole words of 4, at most 10.
pub record IsDatagram (d : Datagram) : Type 0 where
  pub addressed : length d.addresses ≡ 10
  pub words : length d.options % 4 ≡ 0
  pub few : length d.options ≤ 40
  pub source : IsU16 d.source_port
  pub destination : IsU16 d.destination_port
  pub fits : 28 + length d.options + length d.payload < 2 ^ 16

abbrev pub header_length : Datagram → ℕ
header_length d = 20 + length d.options

abbrev pub total_length : Datagram → ℕ
total_length d = 28 + length d.options + length d.payload

abbrev pub udp_length : Datagram → ℕ
udp_length d = 8 + length d.payload

abbrev pub udp_bytes : Datagram → List ℕ → List ℕ
udp_bytes d rest =
    (d.source_port / 256)
    ∷ (d.source_port % 256)
    ∷ (d.destination_port / 256)
    ∷ (d.destination_port % 256)
    ∷ (udp_length d / 256)
    ∷ (udp_length d % 256)
    ∷ d.checksum_high
    ∷ d.checksum_low
    ∷ (d.payload ++ rest)

-- The packet, and what follows it in the capture.
abbrev pub ip_bytes : Datagram → List ℕ → List ℕ
ip_bytes d rest =
    (64 + header_length d / 4)
    ∷ d.tos
    ∷ (total_length d / 256)
    ∷ (total_length d % 256)
    ∷ d.ident_high
    ∷ d.ident_low
    ∷ (if d.dont_fragment then 64 else 0)
    ∷ 0
    ∷ d.ttl
    ∷ 17
    ∷ (d.addresses ++ (d.options ++ udp_bytes d rest))

-- A 16-bit field behind `front`.
pub be16-append :
    (front ys : List ℕ) (k i a b w : ℕ)
    → i ≡ length front + k
    → get_elem? ys k ≡ some a
    → get_elem? ys (k + 1) ≡ some b
    → a * 256 + b ≡ w
    → be16 (front ++ ys) i ≡ some w
unfolding be16
be16-append front ys k i a b w e ea eb sum =
    rw
      (
        get_elem?-append_add front ys k i e ∙ ea,
        get_elem?-append_add front ys (k + 1) (i + 1) (omega arith) ∙ eb,
      )
      (ap some sum)

-- The result for a datagram.
abbrev pub payload_of : Datagram → UdpPayload
payload_of d = record {
  error = PacketError.none;
  bytes = d.payload;
  source_port = d.source_port;
  destination_port = d.destination_port;
}

payload-back :
    (d : Datagram) (front rest : List ℕ) (position count : ℕ)
    → position ≡ length front
    → count ≡ length d.payload
    → subspan (front ++ udp_bytes d rest) (position + 8) count ≡ some d.payload
unfolding subspan
payload-back d front rest position count e n =
    rw
      (ge→ltb (length (front ++ udp_bytes d rest)) (position + 8 + count)
        (omega (arith, length-append front (udp_bytes d rest), length-append d.payload rest)))
      (ap some (
        ap (take count)
          (drop-append_add position 8 (position + 8) front (udp_bytes d rest) (sym e) refl)
        ∙ take-append_eq count d.payload rest (omega arith)))

udp_layer-bytes :
    (d : Datagram) (front rest : List ℕ) (position : ℕ)
    → IsDatagram d
    → position ≡ length front
    → udp_layer (front ++ udp_bytes d rest) position (udp_length d) ≡ some (payload_of d)
unfolding udp_layer
udp_layer-bytes d front rest position v e =
    rw
      (
        be16-append front (udp_bytes d rest) 0 position (d.source_port / 256) (d.source_port % 256)
            d.source_port (omega arith) refl refl (omega arith),
        be16-append front (udp_bytes d rest) 2 (position + 2) (d.destination_port / 256)
            (d.destination_port % 256) d.destination_port (omega arith) refl refl (omega arith),
        be16-append front (udp_bytes d rest) 4 (position + 4) (udp_length d / 256)
            (udp_length d % 256) (udp_length d) (omega arith) refl refl (omega arith),
        payload-back d front rest position ((udp_length d + (2 ^ 64 - 8)) % 2 ^ 64) e
            (omega (arith, v.fits)),
        ge→ltb (udp_length d) 8 (omega arith),
        ge→ltb (left (front ++ udp_bytes d rest) position) (udp_length d)
            (omega (arith, length-append front (udp_bytes d rest), length-append d.payload rest)),
        ge→ltb (udp_length d) (udp_length d) (omega arith),
      )
      refl

-- All that stands in front of the UDP header.
abbrev before_udp : Datagram → List ℕ
before_udp d =
    (64 + header_length d / 4)
    ∷ d.tos
    ∷ (total_length d / 256)
    ∷ (total_length d % 256)
    ∷ d.ident_high
    ∷ d.ident_low
    ∷ (if d.dont_fragment then 64 else 0)
    ∷ 0
    ∷ d.ttl
    ∷ 17
    ∷ (d.addresses ++ d.options)

ip_bytes-split :
    (d : Datagram) (front rest : List ℕ)
    → front ++ ip_bytes d rest ≡ (front ++ before_udp d) ++ udp_bytes d rest
ip_bytes-split d front rest =
    ap
      (λ (t : List ℕ).
        front
        ++ ((64 + header_length d / 4)
            ∷ d.tos
            ∷ (total_length d / 256)
            ∷ (total_length d % 256)
            ∷ d.ident_high
            ∷ d.ident_low
            ∷ (if d.dont_fragment then 64 else 0)
            ∷ 0
            ∷ d.ttl
            ∷ 17
            ∷ t))
      (sym (append_assoc d.addresses d.options (udp_bytes d rest)))
    ∙ sym (append_assoc front (before_udp d) (udp_bytes d rest))

module _ (d : Datagram) (front rest : List ℕ) (position : ℕ) (v : IsDatagram d)
    (e : position ≡ length front) where
  size : length (front ++ ip_bytes d rest) ≡ position + total_length d + length rest
  size = omega (
    arith,
    v.addressed,
    length-append front (ip_bytes d rest),
    length-append d.addresses (d.options ++ udp_bytes d rest),
    length-append d.options (udp_bytes d rest),
    length-append d.payload rest,
  )

  at_udp :
      udp_layer (front ++ ip_bytes d rest) (position + header_length d) (udp_length d)
      ≡ some (payload_of d)
  at_udp = rw (ip_bytes-split d front rest) (
      udp_layer-bytes d (front ++ before_udp d) rest (position + header_length d) v (
        omega (
          arith,
          v.addressed,
          length-append front (before_udp d),
          length-append d.addresses d.options,
        )))

  protocol-bytes :
      ip_protocol (front ++ ip_bytes d rest) position (header_length d) (total_length d) 17
      ≡ some (payload_of d)
  unfolding ip_protocol
  protocol-bytes =
      let q : total_length d - header_length d ≡ udp_length d = omega arith in rw q at_udp

  fragment-bytes :
      (fragment : ℕ)
      → fragment % 2 ^ 14 ≡ 0
      → ip_fragment (front ++ ip_bytes d rest) position (header_length d) (total_length d) fragment
        ≡ some (payload_of d)
  unfolding ip_fragment
  fragment-bytes fragment whole =
      rw (whole, get_elem?-append_add front (ip_bytes d rest) 9 (position + 9) (omega arith))
        protocol-bytes

  fragment_word-mod : (b : Bool) → ((if b then 64 else 0) * 256 + 0) % 2 ^ 14 ≡ 0
  fragment_word-mod true = refl
  fragment_word-mod false = refl

  total-bytes :
      ip_total (front ++ ip_bytes d rest) position (header_length d) (total_length d)
      ≡ some (payload_of d)
  unfolding ip_total
  total-bytes =
      rw
        (
          ge→ltb (total_length d) (header_length d + 8) (omega arith),
          ge→ltb (left (front ++ ip_bytes d rest) position) (total_length d) (omega (arith, size)),
          be16-append front (ip_bytes d rest) 6 (position + 6) (if d.dont_fragment then 64 else 0) 0
              ((if d.dont_fragment then 64 else 0) * 256 + 0) (omega arith) refl refl refl,
        )
        (fragment-bytes _ (fragment_word-mod d.dont_fragment))

  version-bytes :
      ip_version (front ++ ip_bytes d rest) position (64 + header_length d / 4)
      ≡ some (payload_of d)
  unfolding ip_version
  version-bytes =
      let four : (64 + header_length d / 4) / 16 ≡ 4 = omega (arith, v.few) in
      let words : (64 + header_length d / 4) % 16 * 4 ≡ header_length d =
        omega (arith, v.few, v.words) in
      rw
        (
          four,
          words,
          ge→ltb (header_length d) 20 (omega arith),
          ge→ltb (left (front ++ ip_bytes d rest) position) (header_length d) (omega (arith, size)),
          be16-append front (ip_bytes d rest) 2 (position + 2) (total_length d / 256)
              (total_length d % 256) (total_length d) (omega arith) refl refl (omega arith),
        )
        total-bytes

  -- The payload and ports of any datagram with any options, behind anything and before anything.
  pub ip_layer-bytes : ip_layer (front ++ ip_bytes d rest) position ≡ some (payload_of d)
  unfolding ip_layer
  ip_layer-bytes =
      rw
        (
          ge→ltb (left (front ++ ip_bytes d rest) position) 20 (omega (arith, size)),
          get_elem?-append_add front (ip_bytes d rest) 0 position (omega arith),
        )
        version-bytes
