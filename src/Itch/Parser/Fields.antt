-- ===== src/Itch/Parser/Fields.antt =====
-- Big-endian fields: an encoder for each reader of src/parser.cpp, and that the reader inverts it.
use stock_data_engine.Base.{
  ℕ, zero, suc, ◌/◌, ◌%◌, ◌^◌, ◌≡◌, refl, ap, some, List, [], ◌∷◌, ◌++◌, length, IsU16, IsU32,
  IsU48, IsU64, arith,
}
use stock_data_engine.Itch.Messages.{Side, buy, sell, Header}
use stock_data_engine.Itch.Parser.Read.{
  u8, u16, u32, u48, u64, chars, read_header, read_side, ◌>>=◌,
}

-- Byte `k` of a word, counted from the low end.
abbrev pub byte_at : ℕ → ℕ → ℕ
byte_at k v = v / 256 ^ k % 256

abbrev pub be16 : ℕ → List ℕ
be16 v = byte_at 1 v ∷ byte_at 0 v ∷ []

abbrev pub be32 : ℕ → List ℕ
be32 v = byte_at 3 v ∷ byte_at 2 v ∷ byte_at 1 v ∷ byte_at 0 v ∷ []

abbrev pub be48 : ℕ → List ℕ
be48 v = byte_at 5 v ∷ byte_at 4 v ∷ be32 v

abbrev pub be64 : ℕ → List ℕ
be64 v = byte_at 7 v ∷ byte_at 6 v ∷ be48 v

abbrev pub side_code : Side → ℕ
side_code buy = b'B'
side_code sell = b'S'

abbrev pub be_header : Header → List ℕ
be_header h = be16 h.stock_locate ++ (be16 h.tracking_number ++ be48 h.timestamp)

abbrev pub HeaderFits : Header → Type 0
HeaderFits h = IsU16 h.stock_locate × IsU16 h.tracking_number × IsU48 h.timestamp

pub u16-be16 : (v : ℕ) (rest : List ℕ) → IsU16 v → u16 (be16 v ++ rest) ≡ some (v, rest)
unfolding u16
u16-be16 v rest h = ap (λ x. some (x, rest)) (omega arith)

pub u32-be32 : (v : ℕ) (rest : List ℕ) → IsU32 v → u32 (be32 v ++ rest) ≡ some (v, rest)
unfolding u32
u32-be32 v rest h = ap (λ x. some (x, rest)) (omega arith)

pub u48-be48 : (v : ℕ) (rest : List ℕ) → IsU48 v → u48 (be48 v ++ rest) ≡ some (v, rest)
unfolding u48
u48-be48 v rest h = ap (λ x. some (x, rest)) (omega arith)

pub u64-be64 : (v : ℕ) (rest : List ℕ) → IsU64 v → u64 (be64 v ++ rest) ≡ some (v, rest)
unfolding u64
u64-be64 v rest h = ap (λ x. some (x, rest)) (omega arith)

pub u8-cons : (v : ℕ) (rest : List ℕ) → u8 (v ∷ rest) ≡ some (v, rest)
unfolding u8
u8-cons v rest = refl

pub chars-append :
    (n : ℕ) (cs rest : List ℕ) → length cs ≡ n → chars n (cs ++ rest) ≡ some (cs, rest)
unfolding chars
chars-append zero [] rest h = refl
chars-append zero (c ∷ cs) rest h = absurd (omega arith)
chars-append (suc n) [] rest h = absurd (omega arith)
chars-append (suc n) (c ∷ cs) rest h = rw (chars-append n cs rest (omega arith), chars)

pub read_side-code :
    (s : Side) (rest : List ℕ) → read_side (side_code s ∷ rest) ≡ some (some s, rest)
unfolding read_side
read_side-code buy rest = refl
read_side-code sell rest = refl

pub read_header-be :
    (h : Header) (rest : List ℕ) → HeaderFits h → read_header (be_header h ++ rest) ≡ some (h, rest)
unfolding read_header
read_header-be h rest fits = rw (
  u16-be16 h.stock_locate (be16 h.tracking_number ++ (be48 h.timestamp ++ rest)) fits.0,
  u16-be16 h.tracking_number (be48 h.timestamp ++ rest) fits.1,
  u48-be48 h.timestamp rest fits.2,
  ◌>>=◌,
)
