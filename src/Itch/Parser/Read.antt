-- ===== src/Itch/Parser/Read.antt =====
-- The class `Reader` of src/parser.cpp. Its state is what `b_` holds from `pos_` on; `none` is a
-- read past the end of the span, which the source does not check and which would be undefined.
use stock_data_engine.Base.{
  ℕ, zero, suc, ◌+◌, ◌*◌, ◌%◌, ◌^◌, Option, none, some, List, [], ◌∷◌, ◌==◌, if◌then◌else◌,
}
use stock_data_engine.Itch.Messages.{Side, buy, sell, Header}

abbrev pub Reader : Type 0 → Type 0
Reader A = List ℕ → Option (A × List ℕ)

infixl 5 ◌>>=◌
abbrev pub ◌>>=◌ : {A B : Type 0} → Reader A → (A → Reader B) → Reader B
◌>>=◌ m f bs = elim (m bs) [ none ↦ none | some (a, rest) ↦ f a rest ]

abbrev pub pure : {A : Type 0} → A → Reader A
pure a bs = some (a, bs)

unfoldable pub u8 : Reader ℕ
u8 [] = none
u8 (b ∷ rest) = some (b, rest)

-- `(a << 8) | b` of two bytes: the low byte of `a << 8` is 0, so `|` adds.
unfoldable pub u16 : Reader ℕ
unfolding u8
u16 = do a ← u8; b ← u8; pure (a * 256 + b)

-- `for (i = 0; i < n; ++i) v = (v << 8) | u8()` in a word of `w` bits.
unfoldable pub accumulate : ℕ → ℕ → ℕ → Reader ℕ
unfolding u8
accumulate w zero v bs = some (v, bs)
accumulate w (suc n) v [] = none
accumulate w (suc n) v (b ∷ bs) = accumulate w n ((v * 256) % 2 ^ w + b) bs

unfoldable pub u32 : Reader ℕ
unfolding accumulate
u32 = accumulate 32 4 0

unfoldable pub u48 : Reader ℕ
unfolding accumulate
u48 = accumulate 64 6 0

unfoldable pub u64 : Reader ℕ
unfolding accumulate
u64 = accumulate 64 8 0

unfoldable pub chars : ℕ → Reader (List ℕ)
unfolding u8
chars zero bs = some ([], bs)
chars (suc n) [] = none
chars (suc n) (b ∷ bs) = elim (chars n bs) [ none ↦ none | some (cs, rest) ↦ some (b ∷ cs, rest) ]

unfoldable pub read_header : Reader Header
read_header = do
  stock_locate ← u16
  tracking_number ← u16
  timestamp ← u48
  pure (record {
    stock_locate = stock_locate;
    tracking_number = tracking_number;
    timestamp = timestamp;
  })

-- `none` in the result is the `false` of the source, with `side` left as it was.
unfoldable pub read_side : Reader (Option Side)
unfolding u8
read_side = do c ← u8; pure (if c == b'B' then some buy else if c == b'S' then some sell else none)
