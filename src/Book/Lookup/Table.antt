-- ===== src/Book/Lookup/Table.antt =====
-- The representation invariant of the lookup table of src/order_book.cpp.
use stock_data_engine.Base.{
  some, ℕ, zero, suc, ◌<◌, ◌≡◌, ◌≢◌, ◌⊎◌, inl, inr, some, List, length, set, arith, get_or-set_self,
  get_or-set_ne, ◌==◌, if◌then◌else◌, Bool-cases, replicate, length-replicate, refl, ==→eq, ==→ne,
}
use stock_data_engine.Book.Types.{empty, occupied, LookupSlot, default_slot}
use stock_data_engine.Book.Lookup.{hash, slot, holds}
use stock_data_engine.Book.Lookup.Arc.{Arc}

abbrev pub Occupied : List LookupSlot → ℕ → Type 0
Occupied t x = (slot t x).state ≡ occupied

abbrev pub Empty : List LookupSlot → ℕ → Type 0
Empty t x = (slot t x).state ≡ empty

abbrev pub home : List LookupSlot → ℕ → ℕ
home t x = hash (length t) (slot t x).id

-- No slot is a tombstone, each entry has an order, no identifier stands twice, and every slot from an entry's home up to the
-- entry is occupied.
pub record IsTable (t : List LookupSlot) : Type 0 where
  pub sized : 0 < length t
  pub settled : (x : ℕ) → x < length t → Occupied t x ⊎ Empty t x
  pub stored : (x : ℕ) → x < length t → Occupied t x → (o : ℕ) × ((slot t x).order ≡ some o)
  pub distinct :
      (x y : ℕ)
      → x < length t
      → y < length t
      → Occupied t x
      → Occupied t y
      → (slot t x).id ≡ (slot t y).id
      → x ≡ y
  pub reachable :
      (j x : ℕ) → j < length t → x < length t → Occupied t j → Arc (home t j) j x → Occupied t x

-- The identifier stands in no slot.
abbrev pub Absent : List LookupSlot → ℕ → Type 0
Absent t id = (x : ℕ) → x < length t → Occupied t x → (slot t x).id ≢ id

pub hash-lt : (size id : ℕ) → 0 < size → hash size id < size
unfolding hash
hash-lt size id h = omega arith

pub slot-set :
    (t : List LookupSlot) (i x : ℕ) (v : LookupSlot)
    → i < length t
    → slot (set t i v) x ≡ (if i == x then v else slot t x)
slot-set t i x v h = elim (Bool-cases (i == x)) [
  | inl e ↦ rw (e, ← ==→eq i x e) (get_or-set_self t i v default_slot h)
  | inr e ↦ rw e (get_or-set_ne t i x v default_slot (==→ne i x e))
]

-- Either some slot below `n` holds the identifier, or none does.
search_below :
    (t : List LookupSlot) (id n : ℕ)
    → ((x : ℕ) × (x < n) × Occupied t x × ((slot t x).id ≡ id))
      ⊎ ((x : ℕ) → x < n → Occupied t x → (slot t x).id ≢ id)
search_below t id zero = inr (λ x h. absurd (omega arith))
search_below t id (suc n) = elim (search_below t id n) [
  | inl (x, h, occ, e) ↦ inl (x, omega arith, occ, e)
  | inr absent ↦ elim (Bool-cases (holds (slot t n) id)) [
    | inl e ↦ inl (n, omega arith, ground arith, ground arith)
    | inr e ↦ inr (λ x h occ eq. ground (arith, absent x))
  ]
]

pub present_or_Absent :
    (t : List LookupSlot) (id : ℕ)
    → ((x : ℕ) × (x < length t) × Occupied t x × ((slot t x).id ≡ id)) ⊎ Absent t id
present_or_Absent t id = search_below t id (length t)

slot-replicate : (n x : ℕ) → slot (replicate n default_slot) x ≡ default_slot
slot-replicate zero x = refl
slot-replicate (suc n) zero = refl
slot-replicate (suc n) (suc x) = slot-replicate n x

pub fresh-Empty : (n x : ℕ) → Empty (replicate n default_slot) x
fresh-Empty n x = rw (slot-replicate n x) refl

-- The table that the constructor makes.
pub fresh-IsTable : (n : ℕ) → 0 < n → IsTable (replicate n default_slot)
fresh-IsTable n h = record {
  sized = omega (arith, length-replicate n default_slot);
  settled = λ x hx. inr (fresh-Empty n x);
  stored = λ x hx occ. ground (arith, slot-replicate n x);
  distinct = λ x y hx hy ox oy e. ground (arith, slot-replicate n x);
  reachable = λ j x hj hx oj arc. ground (arith, slot-replicate n j);
}
