-- ===== src/Replay/Udp/Bounds.antt =====
-- `extract_udp_payload` of src/pcap.cpp never reads past the end of a packet, and its loop ends.
use stock_data_engine.Base.{
  ℕ, zero, suc, ◌+◌, ◌-◌, ◌*◌, ◌/◌, ◌%◌, ◌^◌, ◌≤◌, ◌<◌, ◌≡◌, refl, Option, some, Bool, true, false,
  List, length, take, drop, get_elem?, get_elem?-lt, arith, ltb, ◌==◌, ◌||◌, not, if◌then◌else◌,
  inl, inr, Bool-cases, ge→ltb,
}
use stock_data_engine.Replay.Types.{PacketError, UdpPayload, refused}
use stock_data_engine.Replay.Udp.{
  ◌>>=◌, be16, left, Stage, stop, go, is_vlan, skip_vlan, link_layer, subspan, udp_layer,
  ip_protocol, ip_fragment, ip_total, ip_version, ip_layer, network_layer, extract_udp_payload,
}

-- There is a result.
abbrev pub Returns : {A : Type 0} → Option A → Type 0
Returns {A} o = (a : A) × (o ≡ some a)

Returns-bind :
    {A B : Type 0} (m : Option A) (f : A → Option B)
    → Returns m
    → ((a : A) → Returns (f a))
    → Returns (m >>= f)
Returns-bind m f (a, e) h = rw e (h a)

Returns-if :
    {A : Type 0} (b : Bool) (x y : Option A)
    → Returns x
    → (b ≡ false → Returns y)
    → Returns (if b then x else y)
Returns-if true x y p q = p
Returns-if false x y p q = q refl

be16-Returns : (packet : List ℕ) (i : ℕ) → i + 1 < length packet → Returns (be16 packet i)
unfolding be16
be16-Returns packet i h =
    Returns-bind (get_elem? packet i) _ (get_elem?-lt packet i (omega arith)) (λ a.
      Returns-bind (get_elem? packet (i + 1)) _ (get_elem?-lt packet (i + 1) h) (λ b. (_, refl)))

subspan-Returns :
    (packet : List ℕ) (offset count : ℕ)
    → offset + count ≤ length packet
    → Returns (subspan packet offset count)
unfolding subspan
subspan-Returns packet offset count h =
    (take count (drop offset packet), rw (ge→ltb (length packet) (offset + count) h) refl)

udp_layer-Returns :
    (packet : List ℕ) (position room : ℕ)
    → position + 5 < length packet
    → Returns (udp_layer packet position room)
unfolding udp_layer
udp_layer-Returns packet position room h =
    Returns-bind (be16 packet position) _ (be16-Returns packet position (omega arith)) (λ a.
      Returns-bind (be16 packet (position + 2)) _ (be16-Returns packet (position + 2) (omega arith))
        (λ b.
          Returns-bind (be16 packet (position + 4)) _
            (be16-Returns packet (position + 4) (omega arith))
            (λ c.
              Returns-if (ltb c 8 || (ltb room c || ltb (left packet position) c)) _ _ (_, refl)
                (λ fits.
                  Returns-bind (subspan packet (position + 8) ((c + (2 ^ 64 - 8)) % 2 ^ 64)) _
                    (subspan-Returns packet (position + 8) ((c + (2 ^ 64 - 8)) % 2 ^ 64)
                      (ground (arith, fits)))
                    (λ payload. (_, refl))))))

ip_protocol-Returns :
    (packet : List ℕ) (position h total protocol : ℕ)
    → position + h + 8 ≤ length packet
    → Returns (ip_protocol packet position h total protocol)
unfolding ip_protocol
ip_protocol-Returns packet position h total protocol room =
    Returns-if (not (protocol == 17)) _ _ (_, refl)
      (λ udp. udp_layer-Returns packet (position + h) (total - h) (omega arith))

ip_fragment-Returns :
    (packet : List ℕ) (position h total fragment : ℕ)
    → position + h + 8 ≤ length packet
    → 20 ≤ h
    → Returns (ip_fragment packet position h total fragment)
unfolding ip_fragment
ip_fragment-Returns packet position h total fragment room long =
    Returns-if (not (fragment % 2 ^ 14 == 0)) _ _ (_, refl)
      (λ whole.
        Returns-bind (get_elem? packet (position + 9)) _
          (get_elem?-lt packet (position + 9) (omega arith))
          (λ protocol. ip_protocol-Returns packet position h total protocol room))

ip_total-Returns :
    (packet : List ℕ) (position h total : ℕ)
    → position + 20 ≤ length packet
    → 20 ≤ h
    → Returns (ip_total packet position h total)
unfolding ip_total
ip_total-Returns packet position h total room long =
    Returns-if (ltb total (h + 8) || ltb (left packet position) total) _ _ (_, refl)
      (λ fits.
        Returns-bind (be16 packet (position + 6)) _
          (be16-Returns packet (position + 6) (omega arith))
          (λ fragment.
            ip_fragment-Returns packet position h total fragment (ground (arith, fits)) long))

ip_version-Returns :
    (packet : List ℕ) (position v : ℕ)
    → position + 20 ≤ length packet
    → Returns (ip_version packet position v)
unfolding ip_version
ip_version-Returns packet position v room =
    Returns-if (not (v / 16 == 4)) _ _ (_, refl)
      (λ four.
        Returns-if (ltb (v % 16 * 4) 20 || ltb (left packet position) (v % 16 * 4)) _ _ (_, refl)
          (λ fits.
            Returns-bind (be16 packet (position + 2)) _
              (be16-Returns packet (position + 2) (omega arith))
              (λ total.
                ip_total-Returns packet position (v % 16 * 4) total room (ground (arith, fits)))))

ip_layer-Returns : (packet : List ℕ) (position : ℕ) → Returns (ip_layer packet position)
unfolding ip_layer
ip_layer-Returns packet position =
    Returns-if (ltb (left packet position) 20) _ _ (_, refl)
      (λ long.
        Returns-bind (get_elem? packet position) _
          (get_elem?-lt packet position (ground (arith, long)))
          (λ v. ip_version-Returns packet position v (ground (arith, long))))

-- A position that is not past the end.
abbrev pub InPacket : List ℕ → Stage → Type 0
InPacket packet (stop e) = Unit {0}
InPacket packet (go position) = position ≤ length packet

-- A tag takes four bytes, so that a quarter of the bytes left is rounds enough.
skip_vlan-Returns :
    (n : ℕ) (packet : List ℕ) (ether_type position : ℕ)
    → position ≤ length packet
    → length packet < position + 4 * n
    → (s : Stage) × (skip_vlan n packet ether_type position ≡ some s) × InPacket packet s
unfolding skip_vlan
skip_vlan-Returns zero packet t position h enough = absurd (omega arith)
skip_vlan-Returns (suc n) packet t position h enough = elim (Bool-cases (is_vlan t)) [
  | inl tag ↦ elim (Bool-cases (ltb (left packet position) 4)) [
    | inl short ↦ (stop PacketError.truncated_ethernet, rw (tag, short) refl, tt)
    | inr room ↦
        let (t', e) = be16-Returns packet (position + 2) (ground (arith, room)) in
        let (s, e', p) =
          skip_vlan-Returns n packet t' (position + 4) (ground (arith, room)) (omega arith) in
        (s, rw (tag, room, e) e', p)
  ]
  | inr plain ↦ elim (Bool-cases (t == 0x0800)) [
    | inl v4 ↦ (go position, rw (plain, v4) refl, h)
    | inr other ↦ (stop PacketError.unsupported_network_protocol, rw (plain, other) refl, tt)
  ]
]

link_layer-Returns :
    (packet : List ℕ) (link_type : ℕ)
    → (s : Stage) × (link_layer packet link_type ≡ some s) × InPacket packet s
unfolding link_layer
link_layer-Returns packet link_type = elim (Bool-cases (link_type == 1)) [
  | inl ether ↦ elim (Bool-cases (ltb (length packet) 14)) [
    | inl short ↦ (stop PacketError.truncated_ethernet, rw (ether, short) refl, tt)
    | inr room ↦
        let (t, e) = be16-Returns packet 12 (ground (arith, room)) in
        let (s, e', p) =
          skip_vlan-Returns (length packet) packet t 14 (ground (arith, room)) (omega arith) in
        (s, rw (ether, room, e) e', p)
  ]
  | inr other ↦ elim (Bool-cases (link_type == 101)) [
    | inl raw ↦ (go 0, rw (other, raw) refl, omega arith)
    | inr unknown ↦ (stop PacketError.unsupported_link_type, rw (other, unknown) refl, tt)
  ]
]

-- On every packet, of any bytes and length, and for every link type, the extraction ends with a
-- result: no byte and no span is taken past the end of the packet, and the payload's length does
-- not wrap around.
pub extract_udp_payload-total :
    (packet : List ℕ) (link_type : ℕ)
    → (udp : UdpPayload) × (extract_udp_payload packet link_type ≡ some udp)
unfolding extract_udp_payload
extract_udp_payload-total packet link_type =
    let (s, e, p) = link_layer-Returns packet link_type in rw e (finished s)
  where
    finished : (s : Stage) → Returns (network_layer packet s)
    finished (stop e) = (refused e, refl)
    finished (go position) = ip_layer-Returns packet position
