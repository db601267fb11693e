-- ===== src/Book/Fifo/Queue.antt =====
-- The queue of a price level as a list of positions, and what `append` and `unlink` of
-- src/order_book.cpp do to it.
use stock_data_engine.Base.{
  ℕ, ◌+◌, ◌%◌, ◌^◌, ◌<◌, ◌≡◌, refl, ◌∙◌, Option, none, some, List, [], ◌∷◌, ◌++◌, length, set,
  arith, get_or-set_self, get_or-set_ne, some_eq,
}
use native.Mathlib.Decide.{ℕ_discrete}
use stock_data_engine.Book.Types.{Order, PriceLevel, default_order}
use stock_data_engine.Book.Pool.{order_at}
use stock_data_engine.Book.Fifo.Distinct.{Distinct, first_or, last_or}
use stock_data_engine.Book.Fifo.Links.{Links}

abbrev pub quantities : List Order → List ℕ → ℕ
quantities os [] = 0
quantities os (x ∷ xs) = (order_at os x).quantity + quantities os xs

-- The level `l` queues the orders at `xs`, the first to trade in front, and counts them.
pub record IsQueue (os : List Order) (l : PriceLevel) (xs : List ℕ) : Type 0 where
  pub links : Links os none xs none
  pub distinct : Distinct xs
  pub head_is : l.head ≡ first_or xs none
  pub tail_is : l.tail ≡ last_or none xs
  pub total : l.total_quantity ≡ quantities os xs % 2 ^ 64
  pub count : l.order_count ≡ length xs % 2 ^ 32

-- The orders are the same but for `prev` and `next`.
abbrev pub SameButLinks : Order → Order → Type 0
SameButLinks v w =
    (v.id ≡ w.id)
    × (v.price ≡ w.price)
    × (v.quantity ≡ w.quantity)
    × (v.side ≡ w.side)
    × (v.level ≡ w.level)
    × (v.free_next ≡ w.free_next)
    × (v.active ≡ w.active)

abbrev pub AllSameButLinks : List Order → List Order → Type 0
AllSameButLinks os os' = (k : ℕ) → SameButLinks (order_at os' k) (order_at os k)

-- The levels are the same but for the ends of the queue and its two sums.
abbrev pub SameButQueue : PriceLevel → PriceLevel → Type 0
SameButQueue l l' =
    (l'.price ≡ l.price)
    × (l'.left ≡ l.left)
    × (l'.right ≡ l.right)
    × (l'.parent ≡ l.parent)
    × (l'.free_next ≡ l.free_next)
    × (l'.height ≡ l.height)
    × (l'.active ≡ l.active)

pub set-AllSameButLinks :
    (os : List Order) (i : ℕ) (v : Order)
    → i < length os
    → SameButLinks v (order_at os i)
    → AllSameButLinks os (set os i v)
set-AllSameButLinks os i v hi same k = elim (ℕ_discrete i k) [
  | yes q ↦ rw (← q, get_or-set_self os i v default_order hi) same
  | no q ↦ rw (get_or-set_ne os i k v default_order q) (refl, refl, refl, refl, refl, refl, refl)
]

pub AllSameButLinks_trans :
    (a b c : List Order) → AllSameButLinks a b → AllSameButLinks b c → AllSameButLinks a c
AllSameButLinks_trans a b c f g k =
    let (g0, g1, g2, g3, g4, g5, g6) = g k in
    let (f0, f1, f2, f3, f4, f5, f6) = f k in
    (g0 ∙ f0, g1 ∙ f1, g2 ∙ f2, g3 ∙ f3, g4 ∙ f4, g5 ∙ f5, g6 ∙ f6)

pub SameButQueue-trans :
    (a b c : PriceLevel) → SameButQueue a b → SameButQueue b c → SameButQueue a c
SameButQueue-trans a b c (f0, f1, f2, f3, f4, f5, f6) (g0, g1, g2, g3, g4, g5, g6) =
    (g0 ∙ f0, g1 ∙ f1, g2 ∙ f2, g3 ∙ f3, g4 ∙ f4, g5 ∙ f5, g6 ∙ f6)

pub quantities-same :
    (os os' : List Order) (xs : List ℕ)
    → AllSameButLinks os os'
    → quantities os' xs ≡ quantities os xs
quantities-same os os' [] same = refl
quantities-same os os' (x ∷ xs) same = omega (arith, (same x).2, quantities-same os os' xs same)

pub quantities-append :
    (os : List Order) (xs ys : List ℕ)
    → quantities os (xs ++ ys) ≡ quantities os xs + quantities os ys
quantities-append os [] ys = omega arith
quantities-append os (x ∷ xs) ys = omega (arith, quantities-append os xs ys)

pub Links-inside :
    (os : List Order) (p : Option ℕ) (x : ℕ) (xs : List ℕ) (n : Option ℕ) (t : ℕ)
    → Links os p (x ∷ xs) n
    → last_or (some x) xs ≡ some t
    → t < length os
Links-inside os p x [] n t l e = omega (arith, l.0, some_eq e)
Links-inside os p x (y ∷ xs) n t l e = Links-inside os (some x) y xs n t l.3 e
