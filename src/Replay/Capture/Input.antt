-- ===== src/Replay/Capture/Input.antt =====
-- What `CaptureReader` of src/pcap.cpp reads from: its state, its errors and `read_exact`. The file is
-- the list of its bytes that are not read yet. `block_` is not part of the state: it is always
-- filled before it is read, and a packet is a copy of what its span shows. An exception is a `throw`.
use stock_data_engine.Base.{ℕ, Bool, List, length, take, drop, ltb, if◌then◌else◌}

-- The texts of the `std::runtime_error`s.
pub data CaptureError : Type 0 where
  truncated_capture_header truncated_global_header unsupported_pcap_version : CaptureError
  unsupported_magic truncated_record_header invalid_captured_length : CaptureError
  truncated_packet_data truncated_block_type truncated_block_length : CaptureError
  invalid_block_length block_exceeds_limit truncated_block block_length_mismatch : CaptureError
  truncated_section_header invalid_byte_order_magic section_exceeds_limit : CaptureError
  unsupported_pcapng_version section_length_mismatch unknown_interface : CaptureError
  invalid_pcapng_captured_length no_interface packet_exceeds_limit : CaptureError

pub data Result (A : Type 0) : Type 0 where
  throw : CaptureError → Result A
  ok : A → Result A

infixl 5 ◌>>=◌
abbrev pub ◌>>=◌ : {A B : Type 0} → Result A → (A → Result B) → Result B
throw e >>= f = throw e
ok a >>= f = f a

pub data Format : Type 0 where
  pcap pcapng : Format

pub record Interface : Type 0 where
  pub link_type : ℕ
  pub snap_length : ℕ

pub record CapturedPacket : Type 0 where
  pub bytes : List ℕ
  pub link_type : ℕ

pub record CaptureReader : Type 0 where
  pub input : List ℕ
  pub format : Format
  pub little : Bool
  pub classic_link_type : ℕ
  pub interfaces : List Interface

abbrev pub with_input : CaptureReader → List ℕ → CaptureReader
with_input c rest = record c { input = rest }

-- The next `n` bytes, and the rest.
unfoldable pub read_exact : ℕ → CaptureError → List ℕ → Result (List ℕ × List ℕ)
read_exact n e input = if ltb (length input) n then throw e else ok (take n input, drop n input)

abbrev pub check : {A : Type 0} → Bool → CaptureError → Result A → Result A
check bad e next = if bad then throw e else next
