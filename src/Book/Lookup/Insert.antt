-- ===== src/Book/Lookup/Insert.antt =====
-- `lookup_insert` of src/order_book.cpp adds one entry to a well-formed table, and refuses only an
-- identifier that is there already or a full table.
use stock_data_engine.Base.{
  ℕ, zero, suc, ◌<◌, ◌≡◌, ◌≢◌, ◌⊎◌, inl, inr, refl, none, some, List, length, set, arith, ◌==◌,
  if◌then◌else◌, length-set, eq→==, ne→==,
}
use native.Mathlib.Decide.{ℕ_discrete}
use stock_data_engine.Book.Types.{LookupSlot}
use stock_data_engine.Book.Lookup.{hash, slot, step, entry, insert_from, lookup_insert, lookup_find}
use stock_data_engine.Book.Lookup.Arc.{
  Arc, steps, after-lt, steps-after, Arc-self, Arc-after, Arc-uncons,
}
use stock_data_engine.Book.Lookup.Table.{
  IsTable, Occupied, Empty, Absent, home, hash-lt, present_or_Absent, slot-set,
}
use stock_data_engine.Book.Lookup.Find.{lookup_find-present, lookup_find-Absent, steps-lt}

module _ (t : List LookupSlot) (id o : ℕ) where
  -- The first empty slot on the way from `pos` takes the entry.
  record Placed (n pos : ℕ) : Type 0 where
    at : ℕ
    inside : at < length t
    free : Empty t at
    before : (x : ℕ) → x < length t → Arc pos at x → Occupied t x
    result : insert_from t id o n pos none ≡ some (set t at (entry id o))

  record Full (n pos : ℕ) : Type 0 where
    taken : (x : ℕ) → x < length t → steps (length t) pos x < n → Occupied t x
    result : insert_from t id o n pos none ≡ none

  insert_from_cases :
      (n pos : ℕ) → IsTable t → pos < length t → Absent t id → Placed n pos ⊎ Full n pos
  unfolding insert_from
  insert_from_cases zero pos v hp absent =
      inr (record { taken = λ x hx h. absurd (omega arith); result = refl })
  insert_from_cases (suc n) pos v hp absent = elim (v.settled pos hp) [
    | inr free ↦ inl (record {
      at = pos;
      inside = hp;
      free = free;
      before = λ x hx arc. absurd (omega arith);
      result = ground arith;
    })
    | inl occ ↦ elim (insert_from_cases n (step t pos) v (after-lt (length t) pos hp) absent) [
      | inl p ↦ inl (record {
        at = p.at;
        inside = p.inside;
        free = p.free;
        before = λ x hx arc. elim (Arc-uncons (length t) pos p.at x hp p.inside hx arc) [
          | inl e ↦ rw e occ
          | inr arc' ↦ p.before x hx arc'
        ];
        result = ground (arith, absent pos hp, p.result);
      })
      | inr f ↦ inr (record {
        taken = λ x hx h. elim (ℕ_discrete pos x) [
          | yes e ↦ rw (← e) occ
          | no ne ↦ f.taken x hx (omega (arith, steps-after (length t) pos x hp hx ne))
        ];
        result = ground (arith, absent pos hp, f.result);
      })
    ]
  ]

  insert_from-hit :
      (n pos i : ℕ)
      → pos < length t
      → i < length t
      → steps (length t) pos i < n
      → Occupied t i
      → (slot t i).id ≡ id
      → ((x : ℕ) → x < length t → Arc pos i x → Occupied t x)
      → insert_from t id o n pos none ≡ none
  unfolding insert_from
  insert_from-hit zero pos i hp hi hs occ e others = absurd (omega arith)
  insert_from-hit (suc n) pos i hp hi hs occ e others = elim (ℕ_discrete pos i) [
    | yes p ↦ rw p (ground arith)
    | no ne ↦ ground (
      arith,
      others pos hp (Arc-self pos i ne),
      insert_from-hit n (step t pos) i (after-lt (length t) pos hp) hi
          (omega (arith, steps-after (length t) pos i hp hi ne)) occ e
          (λ x hx arc. others x hx (Arc-after (length t) pos i x hp hi hx ne arc)),
    )
  ]

-- An entry put into an empty slot that its probe reaches keeps the table well formed.
module _ (t : List LookupSlot) (id o j : ℕ) (v : IsTable t) (absent : Absent t id)
    (inside : j < length t) (free : Empty t j)
    (before : (x : ℕ) → x < length t → Arc (hash (length t) id) j x → Occupied t x) where
  abbrev put : List LookupSlot
  put = set t j (entry id o)

  same_size : length put ≡ length t
  same_size = length-set t j (entry id o)

  slot-put_self : slot put j ≡ entry id o
  slot-put_self = rw (slot-set t j j (entry id o) inside, eq→== j j refl)

  slot-put_ne : (x : ℕ) → j ≢ x → slot put x ≡ slot t x
  slot-put_ne x ne = rw (slot-set t j x (entry id o) inside, ne→== j x ne)

  put-stored : (x : ℕ) → x < length put → Occupied put x → (p : ℕ) × ((slot put x).order ≡ some p)
  put-stored x hx occ = elim (ℕ_discrete j x) [
    | yes e ↦ (o, rw (← e, slot-put_self))
    | no ne ↦
        rw (slot-put_ne x ne) (v.stored x (omega (arith, same_size)) (rw (slot-put_ne x ne) at occ))
  ]

  put-distinct :
      (x y : ℕ)
      → x < length put
      → y < length put
      → Occupied put x
      → Occupied put y
      → (slot put x).id ≡ (slot put y).id
      → x ≡ y
  put-distinct x y hx hy ox oy e = elim (ℕ_discrete j x) [
    | yes p ↦ elim (ℕ_discrete j y) [
      | yes q ↦ omega arith
      | no q ↦ ground (arith, slot-put_self, slot-put_ne y q, absent y, same_size)
    ]
    | no p ↦ elim (ℕ_discrete j y) [
      | yes q ↦ ground (arith, slot-put_self, slot-put_ne x p, absent x, same_size)
      | no q ↦ ground (arith, slot-put_ne x p, slot-put_ne y q, v.distinct x y, same_size)
    ]
  ]

  put-reachable :
      (i x : ℕ)
      → i < length put
      → x < length put
      → Occupied put i
      → Arc (home put i) i x
      → Occupied put x
  put-reachable i x hi hx oi arc = elim (ℕ_discrete j x) [
    | yes p ↦ rw (← p, slot-put_self)
    | no p ↦ rw (slot-put_ne x p) (elim (ℕ_discrete j i) [
      | yes q ↦ before x (omega (arith, same_size)) (rw (← q, slot-put_self, same_size) at arc)
      | no q ↦
          v.reachable i x (omega (arith, same_size)) (omega (arith, same_size))
            (rw (slot-put_ne i q) at oi) (rw (slot-put_ne i q, same_size) at arc)
    ])
  ]

  put-IsTable : IsTable put
  put-IsTable = record {
    sized = omega (arith, v.sized, same_size);
    settled = λ x hx. elim (ℕ_discrete j x) [
      | yes p ↦ inl (rw (← p, slot-put_self))
      | no p ↦ rw (slot-put_ne x p) (v.settled x (omega (arith, same_size)))
    ];
    stored = put-stored;
    distinct = put-distinct;
    reachable = put-reachable;
  }

  still-Absent : (k : ℕ) → Absent put k → Absent t k
  still-Absent k gone x hx occ e = elim (ℕ_discrete j x) [
    | yes p ↦ ground (arith, free)
    | no p ↦ ground (arith, gone x, slot-put_ne x p, same_size)
  ]

  -- The new entry is found under its identifier, and nothing else changes.
  lookup_find-put : (k : ℕ) → lookup_find put k ≡ (if id == k then some o else lookup_find t k)
  lookup_find-put k = elim (present_or_Absent put k) [
    | inl (x, hx, occ, e) ↦ elim (ℕ_discrete j x) [
      | yes p ↦ ground (arith, lookup_find-present put x put-IsTable hx occ, slot-put_self)
      | no p ↦ ground (
        arith,
        slot-put_ne x p,
        absent x,
        same_size,
        lookup_find-present put x put-IsTable hx occ,
        lookup_find-present t x v (omega (arith, same_size)) (rw (slot-put_ne x p) at occ),
      )
    ]
    | inr gone ↦ ground (
      arith,
      gone j,
      slot-put_self,
      same_size,
      lookup_find-Absent put k put-IsTable gone,
      lookup_find-Absent t k v (still-Absent k gone),
    )
  ]

lookup_find_none→Absent :
    (t : List LookupSlot) (id : ℕ) → IsTable t → lookup_find t id ≡ none → Absent t id
lookup_find_none→Absent t id v e x hx occ q =
    let (o, stored) = v.stored x hx occ in ground (arith, lookup_find-present t x v hx occ, stored)

-- A new identifier goes into a well-formed table that is not full: the insertion succeeds, the table
-- stays well formed and of its size, the identifier is found with its order, and every other
-- identifier is found as before.
pub lookup_insert-adds :
    (t : List LookupSlot) (id o i : ℕ)
    → IsTable t
    → lookup_find t id ≡ none
    → i < length t
    → Empty t i
    → (t' : List LookupSlot) × (lookup_insert t id o ≡ some t')
      × IsTable t'
      × (length t' ≡ length t)
      × ((k : ℕ) → lookup_find t' k ≡ (if id == k then some o else lookup_find t k))
unfolding lookup_insert
lookup_insert-adds t id o i v missing hi empty_i =
    let absent : Absent t id = lookup_find_none→Absent t id v missing in
    let start : hash (length t) id < length t = hash-lt (length t) id v.sized in
    elim (insert_from_cases t id o (length t) (hash (length t) id) v start absent) [
      | inl p ↦ (
        set t p.at (entry id o),
        p.result,
        put-IsTable t id o p.at v absent p.inside p.free p.before,
        length-set t p.at (entry id o),
        lookup_find-put t id o p.at v absent p.inside p.free p.before,
      )
      | inr f ↦ ground (arith, f.taken i hi (steps-lt (length t) (hash (length t) id) i start hi))
    ]

-- In a well-formed table the insertion refuses an identifier that is found, and, when every slot is
-- occupied, any identifier.
pub lookup_insert-refuses :
    (t : List LookupSlot) (id o : ℕ)
    → IsTable t
    → (lookup_find t id ≢ none) ⊎ ((x : ℕ) → x < length t → Occupied t x)
    → lookup_insert t id o ≡ none
unfolding lookup_insert
lookup_insert-refuses t id o v h = elim (present_or_Absent t id) [
  | inl (x, hx, occ, e) ↦
      insert_from-hit t id o (length t) (hash (length t) id) x start hx
        (steps-lt (length t) (hash (length t) id) x start hx) occ e
        (λ y hy arc. v.reachable x y hx hy occ (rw e arc))
  | inr absent ↦ elim (insert_from_cases t id o (length t) (hash (length t) id) v start absent) [
    | inl p ↦ elim h [
      | inl found ↦ absurd (found (lookup_find-Absent t id v absent))
      | inr full ↦ ground (arith, full p.at p.inside, p.free)
    ]
    | inr f ↦ f.result
  ]
]
  where
    start : hash (length t) id < length t
    start = hash-lt (length t) id v.sized
