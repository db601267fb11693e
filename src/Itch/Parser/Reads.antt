-- ===== src/Itch/Parser/Reads.antt =====
-- How many bytes each reader of src/parser.cpp needs.
use stock_data_engine.Base.{ℕ, zero, suc, ◌+◌, ◌≤◌, ◌≡◌, refl, some, List, [], ◌∷◌, length, arith}
use stock_data_engine.Itch.Parser.Read.{
  Reader, ◌>>=◌, pure, u8, u16, u32, u48, u64, accumulate, chars, read_header, read_side,
}

-- With `k` bytes left the reader gives a result, and uses at most so many.
pub record Reads {A : Type 0} (r : Reader A) (k : ℕ) : Type 0 where
  pub run :
      (bs : List ℕ)
      → k ≤ length bs
      → (a : A) × (rest : List ℕ) × (r bs ≡ some (a, rest)) × (length bs ≤ length rest + k)

pub Reads-pure : {A : Type 0} (a : A) → Reads (pure a) 0
Reads-pure a = record { run = λ bs long. (a, bs, refl, omega arith) }

pub Reads-stop : {A : Type 0} (a : A) (k : ℕ) → Reads (pure a) k
Reads-stop a k = record { run = λ bs long. (a, bs, refl, omega arith) }

pub Reads-bind :
    {A B : Type 0} {r : Reader A} {f : A → Reader B} {k j : ℕ}
    → Reads r k
    → ((a : A) → Reads (f a) j)
    → Reads (r >>= f) (k + j)
Reads-bind {f = f} p q = record {
  run = λ bs long.
      let (a, rest, e, used) = p.run bs (omega arith) in
      let (b, rest', e', used') = (q a).run rest (omega arith) in
      (b, rest', rw (e, ◌>>=◌) e', omega arith);
}

pub u8-Reads : Reads u8 1
unfolding u8
u8-Reads = record { run = go }
  where
    go :
        (bs : List ℕ)
        → 1 ≤ length bs
        → (a : ℕ) × (rest : List ℕ) × (u8 bs ≡ some (a, rest)) × (length bs ≤ length rest + 1)
    go [] long = absurd (omega arith)
    go (b ∷ rest) long = (b, rest, refl, omega arith)

pub u16-Reads : Reads u16 2
unfolding u16
u16-Reads = Reads-bind u8-Reads (λ a. Reads-bind u8-Reads (λ b. Reads-pure _))

pub read_side-Reads : Reads read_side 1
unfolding read_side
read_side-Reads = Reads-bind u8-Reads (λ c. Reads-pure _)

pub accumulate-Reads : (w n v : ℕ) → Reads (accumulate w n v) n
unfolding accumulate
accumulate-Reads w n v = record { run = go n v }
  where
    go :
        (n v : ℕ) (bs : List ℕ)
        → n ≤ length bs
        → (a : ℕ) × (rest : List ℕ) × (accumulate w n v bs ≡ some (a, rest))
          × (length bs ≤ length rest + n)
    go zero v bs long = (v, bs, refl, omega arith)
    go (suc n) v [] long = absurd (omega arith)
    go (suc n) v (b ∷ bs) long =
        let (a, rest, e, used) = go n _ bs (omega arith) in (a, rest, e, omega arith)

pub u32-Reads : Reads u32 4
unfolding u32
u32-Reads = accumulate-Reads 32 4 0

pub u48-Reads : Reads u48 6
unfolding u48
u48-Reads = accumulate-Reads 64 6 0

pub u64-Reads : Reads u64 8
unfolding u64
u64-Reads = accumulate-Reads 64 8 0

pub chars-Reads : (n : ℕ) → Reads (chars n) n
unfolding chars
chars-Reads n = record { run = go n }
  where
    go :
        (n : ℕ) (bs : List ℕ)
        → n ≤ length bs
        → (a : List ℕ) × (rest : List ℕ) × (chars n bs ≡ some (a, rest))
          × (length bs ≤ length rest + n)
    go zero bs long = ([], bs, refl, omega arith)
    go (suc n) [] long = absurd (omega arith)
    go (suc n) (b ∷ bs) long =
        let (a, rest, e, used) = go n bs (omega arith) in
        (b ∷ a, rest, rw (e, chars) refl, omega arith)

pub read_header-Reads : Reads read_header 10
unfolding read_header
read_header-Reads =
    Reads-bind u16-Reads (λ l. Reads-bind u16-Reads (λ t. Reads-bind u48-Reads (λ n. Reads-pure _)))
