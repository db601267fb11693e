-- ===== src/Book/Lookup/Arc.antt =====
-- Arcs of a ring of positions 0 .. size - 1, as probing in src/order_book.cpp walks them.
use stock_data_engine.Base.{ℕ, ◌+◌, ◌-◌, ◌%◌, ◌≤◌, ◌<◌, ◌≡◌, ◌≢◌, ◌⊎◌, arith, leb, if◌then◌else◌}

-- `x` is met on the way from `a` to `b`, `b` itself not counted.
abbrev pub Arc : ℕ → ℕ → ℕ → Type 0
Arc a b x = ((a ≤ x) × (x < b)) ⊎ ((b < a) × (a ≤ x)) ⊎ ((b < a) × (x < b))

-- The number of steps from `a` to `b`.
abbrev pub steps : ℕ → ℕ → ℕ → ℕ
steps size a b = if leb a b then b - a else size - a + b

-- The position after `a`.
abbrev pub after : ℕ → ℕ → ℕ
after size a = (a + 1) % size

pub after_cases :
    (size a : ℕ)
    → a < size
    → ((after size a ≡ a + 1) × (a + 1 < size)) ⊎ ((after size a ≡ 0) × (a + 1 ≡ size))
after_cases size a h = grind arith

pub after-lt : (size a : ℕ) → a < size → after size a < size
after-lt size a h = ground (arith, after_cases size a h)

pub steps-after :
    (size a b : ℕ) → a < size → b < size → a ≢ b → steps size (after size a) b < steps size a b
steps-after size a b ha hb ne = ground (arith, after_cases size a ha)

pub Arc-self : (a b : ℕ) → a ≢ b → Arc a b a
Arc-self a b ne = grind arith

pub Arc-after :
    (size a b x : ℕ) → a < size → b < size → x < size → a ≢ b → Arc (after size a) b x → Arc a b x
Arc-after size a b x ha hb hx ne arc = grind (arith, after_cases size a ha)

-- Towards `b`, `a` comes first and then the arc from the position after it.
pub Arc-uncons :
    (size a b x : ℕ) → a < size → b < size → x < size → Arc a b x → (x ≡ a) ⊎ Arc (after size a) b x
Arc-uncons size a b x ha hb hx arc = grind (arith, after_cases size a ha)

-- Past `b` the arc grows by `b`.
pub Arc-snoc :
    (size a b x : ℕ)
    → a < size
    → b < size
    → x < size
    → after size b ≢ a
    → Arc a (after size b) x
    → (x ≡ b) ⊎ Arc a b x
Arc-snoc size a b x ha hb hx ne arc = grind (arith, after_cases size b hb)

-- An arc over `hole` that ends neither at `hole` nor among the positions before `scan` covers `scan`.
pub Arc-over :
    (size h j hole scan : ℕ)
    → hole < size
    → scan < size
    → j < size
    → Arc h j hole
    → ¬ Arc (after size hole) scan j
    → j ≢ scan
    → scan ≢ hole
    → Arc h j scan
Arc-over size h j hole scan hh hs hj over out ne apart = grind (arith, after_cases size hole hh)

-- A scan that comes round to the hole has passed every other position.
pub Arc-round :
    (size hole scan e : ℕ)
    → hole < size
    → scan < size
    → e < size
    → after size scan ≡ hole
    → e ≢ hole
    → e ≢ scan
    → Arc (after size hole) scan e
Arc-round size hole scan e hh hs he round ne apart =
    grind (arith, after_cases size hole hh, after_cases size scan hs)
