-- ===== src/Book/Fifo/Distinct.antt =====
-- Lists of positions without repetition, for the queue of a level of src/order_book.cpp.
use stock_data_engine.Base.{ℕ, ◌≢◌, ◌≡◌, refl, sym, ◌∙◌, Option, some, List, [], ◌∷◌, ◌++◌, some_eq}

abbrev pub NotIn : ℕ → List ℕ → Type 0
NotIn o [] = Unit {0}
NotIn o (x ∷ xs) = (o ≢ x) × NotIn o xs

abbrev pub Distinct : List ℕ → Type 0
Distinct [] = Unit {0}
Distinct (x ∷ xs) = NotIn x xs × Distinct xs

abbrev pub first_or : List ℕ → Option ℕ → Option ℕ
first_or [] n = n
first_or (x ∷ xs) n = some x

abbrev pub last_or : Option ℕ → List ℕ → Option ℕ
last_or p [] = p
last_or p (x ∷ xs) = last_or (some x) xs

pub NotIn-split :
    (o : ℕ) (front back : List ℕ) → NotIn o (front ++ back) → NotIn o front × NotIn o back
NotIn-split o [] back h = (tt, h)
NotIn-split o (a ∷ front) back h = let (l, r) = NotIn-split o front back h.1 in ((h.0, l), r)

pub NotIn-append :
    (o : ℕ) (front back : List ℕ) → NotIn o front → NotIn o back → NotIn o (front ++ back)
NotIn-append o [] back h k = k
NotIn-append o (a ∷ front) back h k = (h.0, NotIn-append o front back h.1 k)

-- A list that ends at `t` has `t`.
pub last-NotIn : (z t x : ℕ) (xs : List ℕ) → last_or (some x) xs ≡ some t → NotIn z (x ∷ xs) → z ≢ t
last-NotIn z t x [] e h = λ q. h.0 (q ∙ sym (some_eq e))
last-NotIn z t x (y ∷ ys) e h = last-NotIn z t y ys e h.1

pub Distinct-snoc : (xs : List ℕ) (o : ℕ) → Distinct xs → NotIn o xs → Distinct (xs ++ o ∷ [])
Distinct-snoc [] o d h = (tt, tt)
Distinct-snoc (x ∷ xs) o d h =
    (NotIn-append x xs (o ∷ []) d.0 (λ e. h.0 (sym e), tt), Distinct-snoc xs o d.1 h.1)

-- What is distinct stays so without one element, which is none of the others.
pub Distinct-removed :
    (front : List ℕ) (o : ℕ) (back : List ℕ)
    → Distinct (front ++ o ∷ back)
    → Distinct (front ++ back) × NotIn o front × NotIn o back
Distinct-removed [] o back d = (d.1, tt, d.0)
Distinct-removed (a ∷ front) o back d =
    let (rest, l, r) = Distinct-removed front o back d.1 in
    let (na, others) = NotIn-split a front (o ∷ back) d.0 in
    ((NotIn-append a front back na others.1, rest), (λ e. others.0 (sym e), l), r)

pub Distinct-split :
    (front back : List ℕ) → Distinct (front ++ back) → Distinct front × Distinct back
Distinct-split [] back d = (tt, d)
Distinct-split (a ∷ front) back d =
    let (l, r) = Distinct-split front back d.1 in (((NotIn-split a front back d.0).0, l), r)

-- The last element of the front part is not in the back part.
pub last-apart :
    (x : ℕ) (front back : List ℕ) (t : ℕ)
    → Distinct (x ∷ (front ++ back))
    → last_or (some x) front ≡ some t
    → NotIn t back
last-apart x [] back t d e = rw (some_eq e) at d.0
last-apart x (a ∷ front) back t d e = last-apart a front back t d.1 e

-- The first element of the back part is not in the front part.
pub first-apart :
    (front : List ℕ) (b : ℕ) (back : List ℕ) → Distinct (front ++ b ∷ back) → NotIn b front
first-apart front b back d = (Distinct-removed front b back d).1

pub last_some : (x : ℕ) (xs : List ℕ) → (t : ℕ) × (last_or (some x) xs ≡ some t)
last_some x [] = (x, refl)
last_some x (y ∷ ys) = last_some y ys

pub last-append : (p : Option ℕ) (xs : List ℕ) (o : ℕ) → last_or p (xs ++ o ∷ []) ≡ some o
last-append p [] o = refl
last-append p (x ∷ xs) o = last-append (some x) xs o

pub last-append_cons :
    (p : Option ℕ) (xs : List ℕ) (y : ℕ) (ys : List ℕ)
    → last_or p (xs ++ y ∷ ys) ≡ last_or (some y) ys
last-append_cons p [] y ys = refl
last-append_cons p (x ∷ xs) y ys = last-append_cons (some x) xs y ys
