-- ===== src/Replay/Udp/Ethernet.antt =====
-- `extract_udp_payload` of src/pcap.cpp on Ethernet frames with any VLAN tags, and on raw IP packets.
use stock_data_engine.Base.{
  ℕ, zero, suc, ◌+◌, ◌*◌, ◌<◌, ◌≡◌, refl, sym, ap, ◌∙◌, some, Bool, true, false, List, [], ◌∷◌,
  ◌++◌, length, arith, if◌then◌else◌, length-append, append_assoc, ge→ltb,
}
use stock_data_engine.Replay.Udp.{
  left, go, is_vlan, skip_vlan, link_layer, ip_layer, extract_udp_payload,
}
use stock_data_engine.Replay.Udp.Ipv4.{
  Datagram, IsDatagram, ip_bytes, payload_of, be16-append, ip_layer-bytes,
}

-- A VLAN tag: of the service kind or not, and its two bytes.
pub record Tag : Type 0 where
  pub service : Bool
  pub high : ℕ
  pub low : ℕ

-- The two bytes of the type that announces the tags, or IPv4 if there is none.
abbrev pub type_high : List Tag → ℕ
type_high [] = 0x08
type_high (t ∷ ts) = if t.service then 0x88 else 0x81

abbrev pub type_low : List Tag → ℕ
type_low [] = 0x00
type_low (t ∷ ts) = if t.service then 0xa8 else 0x00

abbrev pub tag_bytes : List Tag → List ℕ
tag_bytes [] = []
tag_bytes (t ∷ ts) = t.high ∷ t.low ∷ type_high ts ∷ type_low ts ∷ tag_bytes ts

-- The two addresses are 12 bytes.
abbrev pub ethernet_bytes : List ℕ → List Tag → List ℕ → List ℕ
ethernet_bytes addresses tags rest =
    addresses ++ type_high tags ∷ type_low tags ∷ (tag_bytes tags ++ rest)

abbrev type_of : List Tag → ℕ
type_of ts = type_high ts * 256 + type_low ts

type_of-is_vlan : (t : Tag) (ts : List Tag) → is_vlan (type_of (t ∷ ts)) ≡ true
type_of-is_vlan t ts = kinds t.service
  where
    kinds :
        (b : Bool) → is_vlan ((if b then 0x88 else 0x81) * 256 + (if b then 0xa8 else 0x00)) ≡ true
    kinds true = refl
    kinds false = refl

length-tag_bytes : (ts : List Tag) → length (tag_bytes ts) ≡ 4 * length ts
length-tag_bytes [] = refl
length-tag_bytes (t ∷ ts) = omega (arith, length-tag_bytes ts)

skip_vlan-tags :
    (n : ℕ) (front : List ℕ) (tags : List Tag) (rest : List ℕ) (position : ℕ)
    → position ≡ length front
    → length tags < n
    → skip_vlan n (front ++ (tag_bytes tags ++ rest)) (type_of tags) position
      ≡ some (go (position + 4 * length tags))
unfolding skip_vlan
skip_vlan-tags zero front tags rest position e h = absurd (omega arith)
skip_vlan-tags (suc n) front [] rest position e h = ap (λ p. some (go p)) (omega arith)
skip_vlan-tags (suc n) front (t ∷ ts) rest position e h =
    rw
      (
        type_of-is_vlan t ts,
        ge→ltb (left (front ++ (tag_bytes (t ∷ ts) ++ rest)) position) 4
            (omega (arith, length-append front (tag_bytes (t ∷ ts) ++ rest))),
        be16-append front (tag_bytes (t ∷ ts) ++ rest) 2 (position + 2) (type_high ts) (type_low ts)
            (type_of ts) (omega arith) refl refl refl,
      )
      (ap (λ p. skip_vlan n p (type_of ts) (position + 4))
          (sym (
            append_assoc front (t.high ∷ t.low ∷ type_high ts ∷ type_low ts ∷ [])
              (tag_bytes ts ++ rest)))
        ∙ (skip_vlan-tags n (front ++ t.high ∷ t.low ∷ type_high ts ∷ type_low ts ∷ []) ts rest
              (position + 4)
              (omega
                (arith, length-append front (t.high ∷ t.low ∷ type_high ts ∷ type_low ts ∷ [])))
              (omega arith)
            ∙ ap (λ p. some (go p)) (omega arith)))

module _ (addresses : List ℕ) (tags : List Tag) (rest : List ℕ)
    (twelve : length addresses ≡ 12) where
  ethernet-split :
      ethernet_bytes addresses tags rest
      ≡ (addresses ++ type_high tags ∷ type_low tags ∷ []) ++ (tag_bytes tags ++ rest)
  ethernet-split =
      sym (append_assoc addresses (type_high tags ∷ type_low tags ∷ []) (tag_bytes tags ++ rest))

  long : length (ethernet_bytes addresses tags rest) ≡ 14 + 4 * length tags + length rest
  long = omega (
    arith,
    twelve,
    length-append addresses (type_high tags ∷ type_low tags ∷ (tag_bytes tags ++ rest)),
    length-append (tag_bytes tags) rest,
    length-tag_bytes tags,
  )

  link_layer-ethernet :
      link_layer (ethernet_bytes addresses tags rest) 1 ≡ some (go (14 + 4 * length tags))
  unfolding link_layer
  link_layer-ethernet =
      rw
        (
          ge→ltb (length (ethernet_bytes addresses tags rest)) 14 (omega (arith, long)),
          be16-append addresses (type_high tags ∷ type_low tags ∷ (tag_bytes tags ++ rest)) 0 12
              (type_high tags) (type_low tags) (type_of tags) (omega arith) refl refl refl,
        )
        (ap (λ p. skip_vlan (length (ethernet_bytes addresses tags rest)) p (type_of tags) 14)
            ethernet-split
          ∙ skip_vlan-tags (length (ethernet_bytes addresses tags rest))
              (addresses ++ type_high tags ∷ type_low tags ∷ []) tags rest 14
              (omega (arith, twelve, length-append addresses (type_high tags ∷ type_low tags ∷ [])))
              (omega (arith, long)))

-- From an Ethernet frame with two addresses, any number of VLAN tags of either kind, and a datagram
-- with any IP options that is no fragment, with anything behind it, the extraction gives exactly the
-- payload and the two ports of the datagram.
pub extract_udp_payload-ethernet :
    (addresses : List ℕ) (tags : List Tag) (d : Datagram) (rest : List ℕ)
    → length addresses ≡ 12
    → IsDatagram d
    → extract_udp_payload (ethernet_bytes addresses tags (ip_bytes d rest)) 1 ≡ some (payload_of d)
unfolding extract_udp_payload
extract_udp_payload-ethernet addresses tags d rest twelve v =
    rw (link_layer-ethernet addresses tags (ip_bytes d rest) twelve) (
      ap (λ p. ip_layer p (14 + 4 * length tags))
        (ethernet-split addresses tags (ip_bytes d rest) twelve
          ∙ sym (
              append_assoc (addresses ++ type_high tags ∷ type_low tags ∷ []) (tag_bytes tags)
                (ip_bytes d rest)))
      ∙ ip_layer-bytes d ((addresses ++ type_high tags ∷ type_low tags ∷ []) ++ tag_bytes tags) rest
          (14 + 4 * length tags) v
          (omega (
            arith,
            twelve,
            length-append (addresses ++ type_high tags ∷ type_low tags ∷ []) (tag_bytes tags),
            length-append addresses (type_high tags ∷ type_low tags ∷ []),
            length-tag_bytes tags,
          )))

-- The same for a raw IP packet, link type 101.
pub extract_udp_payload-raw :
    (d : Datagram) (rest : List ℕ)
    → IsDatagram d
    → extract_udp_payload (ip_bytes d rest) 101 ≡ some (payload_of d)
unfolding extract_udp_payload link_layer
extract_udp_payload-raw d rest v = ip_layer-bytes d [] rest 0 v refl
