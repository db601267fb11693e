-- ===== src/Replay/Capture/Written.antt =====
-- `CaptureReader` of src/pcap.cpp on a PCAP file that was written by the format.
use stock_data_engine.Base.{
  ℕ, ◌/◌, ◌%◌, ◌^◌, ◌≤◌, ◌<◌, ◌≡◌, refl, Bool, true, false, some, List, [], ◌∷◌, ◌++◌, length, drop,
  if◌then◌else◌, arith, length-append, take-append_eq, drop-append_add, ge→ltb, ne→==,
}
use stock_data_engine.Replay.Capture.Fields.{read16, read32, maximum_packet_size}
use stock_data_engine.Replay.Capture.Input.{
  ok, pcap, CapturedPacket, CaptureReader, read_exact, CaptureError, truncated_capture_header,
  truncated_global_header, truncated_record_header, truncated_packet_data,
}
use stock_data_engine.Replay.Capture.{
  is_classic, is_classic_little, open_classic, open_capture, next_classic,
}

-- A number in two or four bytes.
abbrev pub bytes16 : Bool → ℕ → List ℕ
bytes16 little n = if little then n % 256 ∷ n / 256 ∷ [] else n / 256 ∷ n % 256 ∷ []

abbrev pub bytes32 : Bool → ℕ → List ℕ
bytes32 little n =
    if little
    then n % 256 ∷ n / 256 % 256 ∷ n / 65536 % 256 ∷ n / 16777216 ∷ []
    else n / 16777216 ∷ n / 65536 % 256 ∷ n / 256 % 256 ∷ n % 256 ∷ []

pub read32-bytes :
    (little : Bool) (n : ℕ) (rest : List ℕ) → read32 (bytes32 little n ++ rest) little ≡ n
unfolding read32
read32-bytes true n rest = omega arith
read32-bytes false n rest = omega arith

pub length-bytes32 : (little : Bool) (n : ℕ) → length (bytes32 little n) ≡ 4
length-bytes32 true n = refl
length-bytes32 false n = refl

read_exact-append :
    (n : ℕ) (e : CaptureError) (front rest : List ℕ)
    → length front ≡ n
    → read_exact n e (front ++ rest) ≡ ok (front, rest)
unfolding read_exact
read_exact-append n e front rest h =
    rw
      (
        ge→ltb (length (front ++ rest)) n (omega (arith, length-append front rest, h)),
        take-append_eq n front rest h,
        drop-append_add n 0 n front rest h (omega arith),
      )
      refl

read32_alone : (little : Bool) (n : ℕ) → read32 (bytes32 little n) little ≡ n
unfolding read32
read32_alone true n = omega arith
read32_alone false n = omega arith

-- A packet with the eight bytes of its time stamp and the length that it had on the wire.
pub record Written : Type 0 where
  pub stamp : List ℕ
  pub original : ℕ
  pub bytes : List ℕ

-- A packet of at most 65,536 bytes, of which the capture may have cut the end off.
abbrev pub IsWritten : Written → Type 0
IsWritten w =
    (length w.stamp ≡ 8)
    × (length w.bytes ≤ maximum_packet_size)
    × (length w.bytes ≤ w.original)
    × (w.original < 2 ^ 32)

abbrev pub record_header : Bool → Written → List ℕ
record_header little w = w.stamp ++ (bytes32 little (length w.bytes) ++ bytes32 little w.original)

abbrev pub records : Bool → List Written → List ℕ
records little [] = []
records little (w ∷ ws) = record_header little w ++ (w.bytes ++ records little ws)

-- Time stamps in microseconds or in nanoseconds.
abbrev pub magic_of : Bool → ℕ
magic_of nanoseconds = if nanoseconds then 0xa1b23c4d else 0xa1b2c3d4

-- The version, twelve bytes of zone, accuracy and snapshot length, and the link type.
abbrev pub global_header : Bool → List ℕ → ℕ → List ℕ
global_header little middle link =
    bytes16 little 2 ++ (bytes16 little 4 ++ (middle ++ bytes32 little link))

abbrev pub file_bytes : Bool → Bool → List ℕ → ℕ → List Written → List ℕ
file_bytes little nanoseconds middle link ws =
    bytes32 little (magic_of nanoseconds) ++ (global_header little middle link ++ records little ws)

abbrev pub packet_of : ℕ → Written → CapturedPacket
packet_of link w = record { bytes = w.bytes; link_type = link }

-- The reader of such a file, before the packets that are left.
abbrev pub reader : Bool → ℕ → List ℕ → CaptureReader
reader little link input = record {
  input = input;
  format = pcap;
  little = little;
  classic_link_type = link;
  interfaces = [];
}

pub length-record_header :
    (little : Bool) (w : Written) → IsWritten w → length (record_header little w) ≡ 16
length-record_header little w v = omega (
  arith,
  v.0,
  length-append w.stamp (bytes32 little (length w.bytes) ++ bytes32 little w.original),
  length-append (bytes32 little (length w.bytes)) (bytes32 little w.original),
  length-bytes32 little (length w.bytes),
  length-bytes32 little w.original,
)

magic_known :
    (little nanoseconds : Bool)
    → (is_classic (read32 (bytes32 little (magic_of nanoseconds)) true) ≡ true)
      × (is_classic_little (read32 (bytes32 little (magic_of nanoseconds)) true) ≡ little)
unfolding read32
magic_known true true = (refl, refl)
magic_known true false = (refl, refl)
magic_known false true = (refl, refl)
magic_known false false = (refl, refl)

version_known :
    (little : Bool) (rest : List ℕ)
    → (read16 (bytes16 little 2 ++ (bytes16 little 4 ++ rest)) little ≡ 2)
      × (read16 (drop 2 (bytes16 little 2 ++ (bytes16 little 4 ++ rest))) little ≡ 4)
unfolding read16
version_known true rest = (refl, refl)
version_known false rest = (refl, refl)

length-bytes16 : (little : Bool) (n : ℕ) → length (bytes16 little n) ≡ 2
length-bytes16 true n = refl
length-bytes16 false n = refl

module _ (little : Bool) (middle : List ℕ) (link : ℕ) (twelve : length middle ≡ 12) where
  length-global_header : length (global_header little middle link) ≡ 20
  length-global_header = omega (
    arith,
    twelve,
    length-append (bytes16 little 2) (bytes16 little 4 ++ (middle ++ bytes32 little link)),
    length-bytes16 little 2,
    length-append (bytes16 little 4) (middle ++ bytes32 little link),
    length-bytes16 little 4,
    length-append middle (bytes32 little link),
    length-bytes32 little link,
  )

  link_back : read32 (drop 16 (global_header little middle link)) little ≡ link
  link_back =
      rw
        (
          drop-append_add 2 14 16 (bytes16 little 2)
              (bytes16 little 4 ++ (middle ++ bytes32 little link)) (length-bytes16 little 2) refl,
          drop-append_add 2 12 14 (bytes16 little 4) (middle ++ bytes32 little link)
              (length-bytes16 little 4) refl,
          drop-append_add 12 0 12 middle (bytes32 little link) twelve refl,
        )
        (read32_alone little link)

  open_classic-header :
      (rest : List ℕ)
      → open_classic little (global_header little middle link ++ rest)
        ≡ ok (reader little link rest)
  unfolding open_classic
  open_classic-header rest =
      rw
        (
          read_exact-append 20 truncated_global_header (global_header little middle link) rest
              length-global_header,
          (version_known little (middle ++ bytes32 little link)).0,
          (version_known little (middle ++ bytes32 little link)).1,
          link_back,
        )
        refl

pub open_capture-file :
    (little nanoseconds : Bool) (middle : List ℕ) (link : ℕ) (rest : List ℕ)
    → length middle ≡ 12
    → open_capture
        (bytes32 little (magic_of nanoseconds) ++ (global_header little middle link ++ rest))
      ≡ ok (reader little link rest)
unfolding open_capture
open_capture-file little nanoseconds middle link rest twelve =
    rw
      (
        read_exact-append 4 truncated_capture_header (bytes32 little (magic_of nanoseconds))
            (global_header little middle link ++ rest)
            (length-bytes32 little (magic_of nanoseconds)),
        (magic_known little nanoseconds).0,
        (magic_known little nanoseconds).1,
      )
      (open_classic-header little middle link twelve rest)

pub next_classic-record :
    (little : Bool) (link : ℕ) (w : Written) (rest : List ℕ)
    → IsWritten w
    → next_classic (reader little link (record_header little w ++ (w.bytes ++ rest)))
      ≡ ok (some (packet_of link w), reader little link rest)
unfolding next_classic
next_classic-record little link w rest v =
    rw
      (
        ne→== (length (record_header little w ++ (w.bytes ++ rest))) 0 (λ e. omega (
          arith,
          e,
          length-append (record_header little w) (w.bytes ++ rest),
          length-record_header little w v,
        )),
        read_exact-append 16 truncated_record_header (record_header little w) (w.bytes ++ rest)
            (length-record_header little w v),
        captured,
        original,
        ge→ltb maximum_packet_size (length w.bytes) v.1,
        ge→ltb w.original (length w.bytes) v.2,
        read_exact-append (length w.bytes) truncated_packet_data w.bytes rest refl,
      )
      refl
  where
    captured : read32 (drop 8 (record_header little w)) little ≡ length w.bytes
    captured =
        rw
          (drop-append_add 8 0 8 w.stamp
            (bytes32 little (length w.bytes) ++ bytes32 little w.original) v.0 refl)
          (read32-bytes little (length w.bytes) (bytes32 little w.original))

    original : read32 (drop 12 (record_header little w)) little ≡ w.original
    original =
        rw
          (
            drop-append_add 8 4 12 w.stamp
                (bytes32 little (length w.bytes) ++ bytes32 little w.original) v.0 refl,
            drop-append_add 4 0 4 (bytes32 little (length w.bytes)) (bytes32 little w.original)
                (length-bytes32 little (length w.bytes)) refl,
          )
          (read32_alone little w.original)
