-- ===== src/Book/Fifo/Links.antt =====
-- Segments of a doubly linked list in `orders_` of src/order_book.cpp.
use stock_data_engine.Base.{
  ℕ, ◌<◌, ◌≡◌, ◌≢◌, sym, Option, some, List, [], ◌∷◌, ◌++◌, length, set, arith, get_or-set_self,
  get_or-set_ne, length-set, some_eq,
}
use stock_data_engine.Book.Types.{Order, default_order}
use stock_data_engine.Book.Pool.{order_at}
use stock_data_engine.Book.Fifo.{set_next, set_prev}
use stock_data_engine.Book.Fifo.Distinct.{NotIn, Distinct, first_or, last_or, last-NotIn}

-- `xs` are linked in this order, between `p` and `n`.
abbrev pub Links : List Order → Option ℕ → List ℕ → Option ℕ → Type 0
Links os p [] n = Unit {0}
Links os p (x ∷ xs) n =
    (x < length os)
    × ((order_at os x).prev ≡ p)
    × ((order_at os x).next ≡ first_or xs n)
    × Links os (some x) xs n

pub Links_split :
    (os : List Order) (p : Option ℕ) (front back : List ℕ) (n : Option ℕ)
    → Links os p (front ++ back) n
    → Links os p front (first_or back n) × Links os (last_or p front) back n
Links_split os p [] back n h = (tt, h)
Links_split os p (a ∷ []) back n h = ((h.0, h.1, h.2, tt), h.3)
Links_split os p (a ∷ b ∷ front) back n h =
    let (l, r) = Links_split os (some a) (b ∷ front) back n h.3 in ((h.0, h.1, h.2, l), r)

pub Links-append :
    (os : List Order) (p : Option ℕ) (front back : List ℕ) (n : Option ℕ)
    → Links os p front (first_or back n)
    → Links os (last_or p front) back n
    → Links os p (front ++ back) n
Links-append os p [] back n l r = r
Links-append os p (a ∷ []) back n l r = (l.0, l.1, l.2, r)
Links-append os p (a ∷ b ∷ front) back n l r =
    (l.0, l.1, l.2, Links-append os (some a) (b ∷ front) back n l.3 r)

-- A write outside a segment leaves it.
pub Links-set :
    (os : List Order) (i : ℕ) (v : Order) (p : Option ℕ) (xs : List ℕ) (n : Option ℕ)
    → NotIn i xs
    → Links os p xs n
    → Links (set os i v) p xs n
Links-set os i v p [] n h l = tt
Links-set os i v p (x ∷ xs) n h l =
    let same : order_at (set os i v) x ≡ order_at os x = get_or-set_ne os i x v default_order h.0 in
    (
      omega (arith, length-set os i v, l.0),
      rw same l.1,
      rw same l.2,
      Links-set os i v (some x) xs n h.1 l.3,
    )

-- A new successor for the last element of a segment.
pub Links-set_next :
    (os : List Order) (p : Option ℕ) (x : ℕ) (xs : List ℕ) (n m : Option ℕ) (t : ℕ)
    → last_or (some x) xs ≡ some t
    → Distinct (x ∷ xs)
    → Links os p (x ∷ xs) n
    → Links (set_next os t m) p (x ∷ xs) m
Links-set_next os p x [] n m t e d l = rw (← some_eq e) (
    let same : order_at (set_next os x m) x ≡ record (order_at os x) { next = m } =
      get_or-set_self os x _ default_order l.0 in
    (
      omega (arith, length-set os x (record (order_at os x) { next = m }), l.0),
      rw same l.1,
      rw same,
      tt,
    ))
Links-set_next os p x (y ∷ ys) n m t e d l =
    let ne : t ≢ x = λ q. last-NotIn x t y ys e d.0 (sym q) in
    let same : order_at (set_next os t m) x ≡ order_at os x =
      get_or-set_ne os t x _ default_order ne in
    (
      omega (arith, length-set os t (record (order_at os t) { next = m }), l.0),
      rw same l.1,
      rw same l.2,
      Links-set_next os (some x) y ys n m t e d.1 l.3,
    )

-- A new predecessor for the first element of a segment.
pub Links-set_prev :
    (os : List Order) (p q : Option ℕ) (x : ℕ) (xs : List ℕ) (n : Option ℕ)
    → Distinct (x ∷ xs)
    → Links os p (x ∷ xs) n
    → Links (set_prev os x q) q (x ∷ xs) n
Links-set_prev os p q x xs n d l =
    let same : order_at (set_prev os x q) x ≡ record (order_at os x) { prev = q } =
      get_or-set_self os x _ default_order l.0 in
    (
      omega (arith, length-set os x (record (order_at os x) { prev = q }), l.0),
      rw same,
      rw same l.2,
      Links-set os x _ (some x) xs n d.0 l.3,
    )
