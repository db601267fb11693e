-- ===== src/Book/Lookup/Shift.antt =====
-- The backward shift of `lookup_erase` in src/order_book.cpp: the loop's invariant, and that it
-- holds at the start of each round.
use stock_data_engine.Base.{
  ℕ, ◌<◌, ◌≡◌, ◌≢◌, ◌⊎◌, inr, refl, sym, some, List, length, set, arith, length-set, eq→==, ne→==,
}
use native.Mathlib.Decide.{ℕ_discrete}
use stock_data_engine.Book.Types.{LookupSlot, default_slot}
use stock_data_engine.Book.Lookup.{slot}
use stock_data_engine.Book.Lookup.Arc.{Arc, after, Arc-over}
use stock_data_engine.Book.Lookup.Table.{IsTable, Occupied, Empty, home, slot-set}

-- The slot at `hole` counts as free, whatever it holds. The slots after it are occupied up to
-- `scan`, and no entry among them is reached over the hole.
pub record IsShifting (t : List LookupSlot) (hole scan : ℕ) : Type 0 where
  pub hole_in : hole < length t
  pub scan_in : scan < length t
  pub apart : scan ≢ hole
  pub settled : (x : ℕ) → x < length t → x ≢ hole → Occupied t x ⊎ Empty t x
  pub stored :
      (x : ℕ) → x < length t → x ≢ hole → Occupied t x → (o : ℕ) × ((slot t x).order ≡ some o)
  pub distinct :
      (x y : ℕ)
      → x < length t
      → y < length t
      → x ≢ hole
      → y ≢ hole
      → Occupied t x
      → Occupied t y
      → (slot t x).id ≡ (slot t y).id
      → x ≡ y
  pub between : (x : ℕ) → x < length t → Arc (after (length t) hole) scan x → Occupied t x
  pub reachable :
      (j x : ℕ)
      → j < length t
      → x < length t
      → j ≢ hole
      → x ≢ hole
      → Occupied t j
      → Arc (home t j) j x
      → Occupied t x
  pub past :
      (j : ℕ)
      → j < length t
      → j ≢ hole
      → Occupied t j
      → Arc (home t j) j hole
      → ¬ Arc (after (length t) hole) scan j

-- Writing over the hole, at `v`.
module _ (t : List LookupSlot) (hole : ℕ) (v : LookupSlot) (inside : hole < length t) where
  pub slot-fill_self : slot (set t hole v) hole ≡ v
  slot-fill_self = rw (slot-set t hole hole v inside, eq→== hole hole refl)

  pub slot-fill_ne : (x : ℕ) → x ≢ hole → slot (set t hole v) x ≡ slot t x
  slot-fill_ne x ne = rw (slot-set t hole x v inside, ne→== hole x (λ e. ne (sym e)))

-- At an empty slot the table is well formed once the hole is cleared.
module _ (t : List LookupSlot) (hole scan : ℕ) (v : IsShifting t hole scan)
    (end : Empty t scan) where
  abbrev pub cleared : List LookupSlot
  cleared = set t hole default_slot

  cleared_size : length cleared ≡ length t
  cleared_size = length-set t hole default_slot

  cleared_hole : slot cleared hole ≡ default_slot
  cleared_hole = slot-fill_self t hole default_slot v.hole_in

  pub cleared_ne : (x : ℕ) → x ≢ hole → slot cleared x ≡ slot t x
  cleared_ne = slot-fill_ne t hole default_slot v.hole_in

  -- An entry of the cleared table is not at the hole.
  pub not_hole : (x : ℕ) → Occupied cleared x → x ≢ hole
  not_hole x occ e = ground (arith, cleared_hole)

  cleared-reachable :
      (j x : ℕ)
      → j < length cleared
      → x < length cleared
      → Occupied cleared j
      → Arc (home cleared j) j x
      → Occupied cleared x
  cleared-reachable j x hj hx occ arc =
      let ne : j ≢ hole = not_hole j occ in
      let hj' : j < length t = omega (arith, cleared_size) in
      let hx' : x < length t = omega (arith, cleared_size) in
      let occ' : Occupied t j = rw (cleared_ne j ne) at occ in
      let arc' : Arc (home t j) j x = rw (cleared_ne j ne, cleared_size) at arc in
      elim (ℕ_discrete x hole) [
        | yes e ↦ ground (
          arith,
          v.reachable j scan hj' v.scan_in ne v.apart occ' (
              Arc-over (length t) (home t j) j hole scan v.hole_in v.scan_in hj' (rw (← e) arc')
                (v.past j hj' ne occ' (rw (← e) arc')) (λ q. ground (arith, q)) v.apart),
        )
        | no q ↦ rw (cleared_ne x q) (v.reachable j x hj' hx' ne q occ' arc')
      ]

  pub cleared-IsTable : IsTable cleared
  cleared-IsTable = record {
    sized = omega (arith, v.hole_in, cleared_size);
    settled = λ x hx. elim (ℕ_discrete x hole) [
      | yes e ↦ inr (rw (e, cleared_hole))
      | no ne ↦ rw (cleared_ne x ne) (v.settled x (omega (arith, cleared_size)) ne)
    ];
    stored = λ x hx occ.
        let ne : x ≢ hole = not_hole x occ in
        rw (cleared_ne x ne)
          (v.stored x (omega (arith, cleared_size)) ne (rw (cleared_ne x ne) at occ));
    distinct = λ x y hx hy ox oy e. ground (
      arith,
      not_hole x ox,
      not_hole y oy,
      cleared_ne x,
      cleared_ne y,
      cleared_size,
      v.distinct x y,
    );
    reachable = cleared-reachable;
  }
