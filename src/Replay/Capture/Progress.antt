-- ===== src/Replay/Capture/Progress.antt =====
-- What the rounds of `next_pcapng` in src/pcap.cpp take from the file, with a postcondition for its
-- results that are no exception.
use stock_data_engine.Base.{
  ℕ, ◌-◌, ◌≤◌, ◌<◌, ◌≡◌, refl, Option, none, some, Bool, true, false, List, [], ◌∷◌, length, arith,
  ne→==, take, drop, ltb, length-take, length-drop, if◌then◌else◌, ltb→ge, Bool-cases, inl, inr,
}
use stock_data_engine.Replay.Capture.Fields.{read32, maximum_packet_size}
use stock_data_engine.Replay.Capture.Input.{
  CaptureError, Result, throw, ok, ◌>>=◌, Interface, CaptureReader, read_exact, check,
}
use stock_data_engine.Replay.Capture.Blocks.{
  read_block_body, skip_block, byte_order, section_body, consume_section, Round, again, return,
  interface_block, captured_slice, of_interface, enhanced_block, simple_slice, simple_block,
  other_block, sized_block, next_block,
}

-- Every result that is no exception has the property.
pub data Ensures {A : Type 0} (P : A → Type 0) : Result A → Type 0 where
  throws : {e : CaptureError} → Ensures P (throw e)
  holds : {a : A} → P a → Ensures P (ok a)

module _ {A : Type 0} {P : A → Type 0} where
  pub Ensures-if :
      (b : Bool) (x y : Result A) → Ensures P x → Ensures P y → Ensures P (if b then x else y)
  Ensures-if true x y p q = p
  Ensures-if false x y p q = q

  pub Ensures-check :
      (bad : Bool) (e : CaptureError) (r : Result A)
      → (bad ≡ false → Ensures P r)
      → Ensures P (check bad e r)
  Ensures-check true e r h = throws
  Ensures-check false e r h = h refl

  pub Ensures-read_exact :
      (n : ℕ) (e : CaptureError) (input : List ℕ) (f : List ℕ × List ℕ → Result A)
      → (n ≤ length input → Ensures P (f (take n input, drop n input)))
      → Ensures P (read_exact n e input >>= f)
  unfolding read_exact
  Ensures-read_exact n e input f h = elim (Bool-cases (ltb (length input) n)) [
    | inl short ↦ rw short throws
    | inr room ↦ rw room (h (ltb→ge (length input) n room))
  ]

module _ {A B : Type 0} {P : A → Type 0} {Q : B → Type 0} where
  Ensures-bind :
      (m : Result A) (f : A → Result B)
      → Ensures P m
      → ((a : A) → P a → Ensures Q (f a))
      → Ensures Q (m >>= f)
  Ensures-bind m f throws q = throws
  Ensures-bind m f (holds p) q = q _ p

Ensures-weaken :
    {A : Type 0} {P Q : A → Type 0} {m : Result A}
    → Ensures P m
    → ((a : A) → P a → Q a)
    → Ensures Q m
Ensures-weaken throws w = throws
Ensures-weaken (holds p) w = holds (w _ p)

le_lt : {n m k : ℕ} → m < n → k ≤ m → k < n
le_lt h l = omega (arith, h, l)

-- A round leaves less than `n` bytes of the file, or is its end; and a packet is within the limit.
abbrev pub Advances : ℕ → Round × CaptureReader → Type 0
Advances n (again, c) = length c.input < n
Advances n (return none, c) = length c.input ≡ 0
Advances n (return (some p), c) = (length c.input < n) × (length p.bytes ≤ maximum_packet_size)

ruleset steps = (Ensures-check, Ensures-read_exact, Ensures-if, holds, throws)

read_block_body-Ensures :
    (little : Bool) (total : ℕ) (input : List ℕ)
    → Ensures
        (λ (r : List ℕ × List ℕ). length r.1 ≤ length input)
        (read_block_body little total input)
unfolding read_block_body
read_block_body-Ensures little total input =
    let left : length (drop (total - 8) input) ≤ length input =
      omega (arith, length-drop (total - 8) input) in
    search (steps, left)

read_block_body_then :
    (little : Bool) (total : ℕ) (input : List ℕ) {B : Type 0} {Q : B → Type 0}
    (f : List ℕ × List ℕ → Result B)
    → ((r : List ℕ × List ℕ) → length r.1 ≤ length input → Ensures Q (f r))
    → Ensures Q (read_block_body little total input >>= f)
read_block_body_then little total input f q =
    Ensures-bind (read_block_body little total input) f (read_block_body-Ensures little total input)
      q

skip_block-Ensures :
    (little : Bool) (total : ℕ) (input : List ℕ)
    → Ensures (λ rest. length rest ≤ length input) (skip_block little total input)
unfolding skip_block
skip_block-Ensures little total input =
    let left : length (drop 4 (drop (total - 12) input)) ≤ length input =
      omega (arith, length-drop (total - 12) input, length-drop 4 (drop (total - 12) input)) in
    search (steps, left)

skip_block_then :
    (little : Bool) (total : ℕ) (input : List ℕ) {B : Type 0} {Q : B → Type 0}
    (f : List ℕ → Result B)
    → ((r : List ℕ) → length r ≤ length input → Ensures Q (f r))
    → Ensures Q (skip_block little total input >>= f)
skip_block_then little total input f q =
    Ensures-bind (skip_block little total input) f (skip_block-Ensures little total input) q

section_body-Ensures :
    (c : CaptureReader) (total : ℕ)
    → Ensures (λ (c' : CaptureReader). length c'.input ≤ length c.input) (section_body c total)
unfolding section_body
section_body-Ensures c total =
    let left : length (drop (total - 12) c.input) ≤ length c.input =
      omega (arith, length-drop (total - 12) c.input) in
    search (steps, left) depth 9

byte_order-Ensures : (magic : ℕ) → Ensures (λ _. Unit {0}) (byte_order magic)
byte_order-Ensures magic = search (steps, tt)

byte_order_then :
    (magic : ℕ) {B : Type 0} {Q : B → Type 0} (f : Bool → Result B)
    → ((r : Bool) → Unit {0} → Ensures Q (f r))
    → Ensures Q (byte_order magic >>= f)
byte_order_then magic f q = Ensures-bind (byte_order magic) f (byte_order-Ensures magic) q

section_body-within :
    (c : CaptureReader) (total n : ℕ)
    → length c.input ≤ n
    → Ensures (λ (c' : CaptureReader). length c'.input ≤ n) (section_body c total)
section_body-within c total n h =
    Ensures-weaken (section_body-Ensures c total) (λ c' l. omega (arith, l, h))

consume_section-Ensures :
    (c : CaptureReader)
    → Ensures (λ (c' : CaptureReader). length c'.input ≤ length c.input) (consume_section c)
unfolding consume_section
consume_section-Ensures c =
    let left : length (drop 8 c.input) ≤ length c.input = omega (arith, length-drop 8 c.input) in
    search (steps, byte_order_then, section_body-within, left) depth 9

consume_section_then :
    (c : CaptureReader) {B : Type 0} {Q : B → Type 0} (f : CaptureReader → Result B)
    → ((r : CaptureReader) → length r.input ≤ length c.input → Ensures Q (f r))
    → Ensures Q (consume_section c >>= f)
consume_section_then c f q = Ensures-bind (consume_section c) f (consume_section-Ensures c) q

module _ (c : CaptureReader) (total n : ℕ) (small : length c.input < n) where
  interface_block-Ensures : Ensures (Advances n) (interface_block c total)
  unfolding interface_block
  interface_block-Ensures =
      let near = λ (k : ℕ). le_lt {n = n} {m = length c.input} {k = k} small in
      search (steps, read_block_body_then, near) depth 9

  other_block-Ensures : Ensures (Advances n) (other_block c total)
  unfolding other_block
  other_block-Ensures =
      let near = λ (k : ℕ). le_lt {n = n} {m = length c.input} {k = k} small in
      search (steps, skip_block_then, near) depth 9

-- What the callers of `slice` need of a packet.
pub take-within :
    (n : ℕ) (bytes : List ℕ) → n ≤ maximum_packet_size → length (take n bytes) ≤ maximum_packet_size
take-within n bytes h = omega (arith, h, length-take n bytes)

module _ (c : CaptureReader) (n : ℕ) (small : length c.input < n) where
  captured_slice-Ensures :
      (body : List ℕ) (i : Interface) (captured original : ℕ)
      → Ensures (Advances n) (captured_slice c body i captured original)
  captured_slice-Ensures body i captured original =
      Ensures-check _ _ _ (λ h. holds (small, take-within captured _ (grind (arith, h, ltb→ge))))

  of_interface-Ensures :
      (body : List ℕ) (i : Option Interface) → Ensures (Advances n) (of_interface c body i)
  of_interface-Ensures body none = throws
  of_interface-Ensures body (some i) =
      captured_slice-Ensures body i (read32 (drop 12 body) c.little)
        (read32 (drop 16 body) c.little)

  simple_slice-Ensures :
      (body : List ℕ) (is : List Interface) → Ensures (Advances n) (simple_slice c body is)
  simple_slice-Ensures body [] = throws
  simple_slice-Ensures body (i ∷ is) =
      Ensures-check _ _ _ (λ h. holds (small, take-within _ _ (ltb→ge _ _ h)))

module _ (c : CaptureReader) (total n : ℕ) (small : length c.input < n) where
  enhanced_block-Ensures : Ensures (Advances n) (enhanced_block c total)
  unfolding enhanced_block
  enhanced_block-Ensures =
      let near = λ (k : ℕ). le_lt {n = n} {m = length c.input} {k = k} small in
      search (steps, read_block_body_then, of_interface-Ensures, near) depth 9

  simple_block-Ensures : Ensures (Advances n) (simple_block c total)
  unfolding simple_block
  simple_block-Ensures =
      let near = λ (k : ℕ). le_lt {n = n} {m = length c.input} {k = k} small in
      search (steps, read_block_body_then, simple_slice-Ensures, near) depth 9

  sized_block-Ensures : (type : ℕ) → Ensures (Advances n) (sized_block c type total)
  unfolding sized_block
  sized_block-Ensures type =
      let a = interface_block-Ensures c total n small in
      let b = other_block-Ensures c total n small in
      search (steps, a, b, enhanced_block-Ensures, simple_block-Ensures)

-- A round of the loop takes bytes from the file.
pub next_block-Ensures :
    (c : CaptureReader) → 0 < length c.input → Ensures (Advances (length c.input)) (next_block c)
unfolding next_block
next_block-Ensures c more =
    let small : length (drop 4 c.input) < length c.input =
      omega (arith, length-drop 4 c.input, more) in
    let smaller : length (drop 4 (drop 4 c.input)) < length c.input =
      omega (arith, length-drop 4 c.input, length-drop 4 (drop 4 c.input), more) in
    let near = λ (k : ℕ). le_lt {n = length c.input} {m = length (drop 4 c.input)} {k = k} small in
    rw (ne→== (length c.input) 0 (λ e. omega (arith, e, more)))
      (search (steps, consume_section_then, sized_block-Ensures, near, smaller) depth 9)
