-- ===== src/Base/Words.antt =====
-- Bytes, and the ranges of the unsigned machine integers.
use Prim.Native.Nat.{ℕ, ◌<◌, ◌^◌}
use mathlib.Core.List.{List}
use stock_data_engine.Base.Lists.{All}

abbrev pub IsByte : ℕ → Type 0
IsByte b = b < 256

abbrev pub IsU16 : ℕ → Type 0
IsU16 v = v < 2 ^ 16

abbrev pub IsU32 : ℕ → Type 0
IsU32 v = v < 2 ^ 32

abbrev pub IsU48 : ℕ → Type 0
IsU48 v = v < 2 ^ 48

abbrev pub IsU64 : ℕ → Type 0
IsU64 v = v < 2 ^ 64

abbrev pub IsBytes : List ℕ → Type 0
IsBytes bs = All IsByte bs
