-- ===== src/Itch/Mold/Frames.antt =====
-- The packet body as a list of length-prefixed messages: `validate` accepts exactly these.
use stock_data_engine.Base.{
  ap, ◌+◌, ◌*◌, All, take-append-drop, length-take, take, Bool-cases, ltb, inl, inr, ℕ, zero, suc,
  ◌/◌, ◌%◌, ◌^◌, ◌<◌, ◌≡◌, refl, List, [], ◌∷◌, ◌++◌, length, drop, arith, length-append, IsBytes,
  drop-append,
}
use stock_data_engine.Itch.Mold.{none, read_u16, validate}

-- A message behind its two-byte length.
abbrev pub frame : List ℕ → List ℕ
frame m = (length m / 256) ∷ (length m % 256) ∷ m

abbrev pub frames : List (List ℕ) → List ℕ
frames [] = []
frames (m ∷ ms) = frame m ++ frames ms

abbrev pub Short : List ℕ → Type 0
Short m = length m < 2 ^ 16

pub read_u16-frame : (m rest : List ℕ) → read_u16 (frame m ++ rest) ≡ length m
unfolding read_u16
read_u16-frame m rest = omega arith

-- Every framed list of messages passes.
pub validate-frames : (ms : List (List ℕ)) → validate (length ms) (frames ms) ≡ none
unfolding validate
validate-frames [] = refl
validate-frames (m ∷ ms) = ground (
  arith,
  read_u16-frame m (frames ms),
  length-append m (frames ms),
  drop-append m (frames ms),
  validate-frames ms,
)

pub IsBytes-drop : (n : ℕ) (bs : List ℕ) → IsBytes bs → IsBytes (drop n bs)
IsBytes-drop zero bs h = h
IsBytes-drop (suc n) [] h = h
IsBytes-drop (suc n) (b ∷ bs) h = IsBytes-drop n bs h.1

-- And what passes is a framed list of so many messages.
pub validate_sound :
    (n : ℕ) (rest : List ℕ)
    → IsBytes rest
    → validate n rest ≡ none
    → (ms : List (List ℕ)) × (length ms ≡ n) × (rest ≡ frames ms) × All Short ms
unfolding validate read_u16
validate_sound zero [] h e = ([], refl, refl, tt)
validate_sound zero (b ∷ rest) h e = ground arith
validate_sound (suc n) [] h e = ground arith
validate_sound (suc n) (a ∷ []) h e = ground arith
validate_sound (suc n) (a ∷ b ∷ rest) h e = elim (Bool-cases (ltb (length rest) len)) [
  | inl short ↦ ground (arith, short)
  | inr long ↦
      let (ms, count, split, fit) =
        validate_sound n (drop len rest) (IsBytes-drop len rest h.1.1) (ground arith) in
      let size : length (take len rest) ≡ len = ground (arith, length-take len rest, long) in
      (
        take len rest ∷ ms,
        ap suc count,
        ground (arith, size, split, take-append-drop len rest, h.0, h.1.0),
        (omega (arith, size, h.0, h.1.0), fit),
      )
]
  where
    len : ℕ
    len = a * 256 + b
