-- ===== src/Replay/Udp.antt =====
-- `extract_udp_payload` of src/pcap.cpp. A read past the end of the packet, or a span that is not in
-- it, which the source does not check by itself and which would be undefined, is `none`.
pub mod Bounds
pub mod Ipv4
pub mod Ethernet
use stock_data_engine.Base.{
  ℕ, zero, suc, ◌+◌, ◌-◌, ◌*◌, ◌/◌, ◌%◌, ◌^◌, Option, none, some, Bool, List, length, take, drop,
  get_elem?, ltb, ◌==◌, ◌||◌, not, if◌then◌else◌,
}
use stock_data_engine.Replay.Types.{
  PacketError, UdpPayload, refused, unsupported_link_type, truncated_ethernet,
  unsupported_network_protocol, truncated_ip, fragmented_ip, non_udp, truncated_udp,
}

infixl 5 ◌>>=◌
abbrev pub ◌>>=◌ : {A B : Type 0} → Option A → (A → Option B) → Option B
none >>= f = none
some a >>= f = f a

-- `be16(packet.data() + i)`
unfoldable pub be16 : List ℕ → ℕ → Option ℕ
be16 packet i = do a ← get_elem? packet i; b ← get_elem? packet (i + 1); some (a * 256 + b)

-- `packet.size() - position`; the position is never past the end.
abbrev pub left : List ℕ → ℕ → ℕ
left packet position = length packet - position

-- The end of a stage: a refusal, or the next position.
pub data Stage : Type 0 where
  stop : PacketError → Stage
  go : ℕ → Stage

abbrev pub is_vlan : ℕ → Bool
is_vlan ether_type = ether_type == 0x8100 || ether_type == 0x88a8

-- The loop over VLAN tags, with at most `n` rounds, and the test behind it.
unfoldable pub skip_vlan : ℕ → List ℕ → ℕ → ℕ → Option Stage
skip_vlan zero packet ether_type position = none
skip_vlan (suc n) packet ether_type position =
    let next = (do t ← be16 packet (position + 2); skip_vlan n packet t (position + 4)) in
    if is_vlan ether_type
    then (if ltb (left packet position) 4 then some (stop truncated_ethernet) else next)
    else some (if ether_type == 0x0800 then go position else stop unsupported_network_protocol)

unfoldable pub link_layer : List ℕ → ℕ → Option Stage
unfolding skip_vlan
link_layer packet link_type =
    if link_type == 1
    then (if ltb (length packet) 14
        then some (stop truncated_ethernet)
        else (do t ← be16 packet 12; skip_vlan (length packet) packet t 14))
    else some (if link_type == 101 then go 0 else stop unsupported_link_type)

-- `packet.subspan(offset, count)`
unfoldable pub subspan : List ℕ → ℕ → ℕ → Option (List ℕ)
subspan packet offset count =
    if ltb (length packet) (offset + count) then none else some (take count (drop offset packet))

-- `udp_length - 8` is an `int` that becomes a `size_t`: below 8 it wraps around.
unfoldable pub udp_layer : List ℕ → ℕ → ℕ → Option UdpPayload
udp_layer packet position room = do
  source_port ← be16 packet position
  destination_port ← be16 packet (position + 2)
  udp_length ← be16 packet (position + 4)
  let bytes = subspan packet (position + 8) ((udp_length + (2 ^ 64 - 8)) % 2 ^ 64)
  if ltb udp_length 8 || (ltb room udp_length || ltb (left packet position) udp_length)
      then some (refused truncated_udp)
      else (bytes >>= λ payload. some (record {
        error = PacketError.none;
        bytes = payload;
        source_port = source_port;
        destination_port = destination_port;
      }))

-- From the protocol on, from the fragment word on, and from the total length on.
unfoldable pub ip_protocol : List ℕ → ℕ → ℕ → ℕ → ℕ → Option UdpPayload
unfolding udp_layer
ip_protocol packet position header_length total_length protocol =
    if not (protocol == 17)
    then some (refused non_udp)
    else udp_layer packet (position + header_length) (total_length - header_length)

unfoldable pub ip_fragment : List ℕ → ℕ → ℕ → ℕ → ℕ → Option UdpPayload
unfolding ip_protocol
ip_fragment packet position header_length total_length fragment =
    if not (fragment % 2 ^ 14 == 0)
    then some (refused fragmented_ip)
    else (get_elem? packet (position + 9)
        >>= ip_protocol packet position header_length total_length)

unfoldable pub ip_total : List ℕ → ℕ → ℕ → ℕ → Option UdpPayload
unfolding ip_fragment
ip_total packet position header_length total_length =
    if ltb total_length (header_length + 8) || ltb (left packet position) total_length
    then some (refused truncated_ip)
    else (be16 packet (position + 6) >>= ip_fragment packet position header_length total_length)

-- From the first byte of the IP header on.
unfoldable pub ip_version : List ℕ → ℕ → ℕ → Option UdpPayload
unfolding ip_total
ip_version packet position version_and_ihl =
    let header_length = version_and_ihl % 16 * 4 in
    if not (version_and_ihl / 16 == 4)
    then some (refused unsupported_network_protocol)
    else if ltb header_length 20 || ltb (left packet position) header_length
    then some (refused truncated_ip)
    else (be16 packet (position + 2) >>= ip_total packet position header_length)

unfoldable pub ip_layer : List ℕ → ℕ → Option UdpPayload
unfolding ip_version
ip_layer packet position =
    if ltb (left packet position) 20
    then some (refused truncated_ip)
    else (get_elem? packet position >>= ip_version packet position)

abbrev pub network_layer : List ℕ → Stage → Option UdpPayload
network_layer packet (stop e) = some (refused e)
network_layer packet (go position) = ip_layer packet position

unfoldable pub extract_udp_payload : List ℕ → ℕ → Option UdpPayload
unfolding link_layer
extract_udp_payload packet link_type = do s ← link_layer packet link_type; network_layer packet s
