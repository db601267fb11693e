-- ===== src/Book/Lookup/Erase.antt =====
-- `lookup_erase` of src/order_book.cpp removes one identifier from a well-formed table and no other.
use stock_data_engine.Base.{
  ℕ, zero, suc, ◌<◌, ◌≡◌, ◌≢◌, inl, inr, refl, sym, ap, ◌∙◌, none, List, length, set, arith, ◌==◌,
  if◌then◌else◌, true, false, Bool-cases, length-set, eq→==, ne→==,
}
use native.Mathlib.Decide.{ℕ_discrete}
use stock_data_engine.Book.Types.{LookupSlot, default_slot}
use stock_data_engine.Book.Lookup.{
  slot, step, crosses, shift_back, erase_from, lookup_erase, lookup_find,
}
use stock_data_engine.Book.Lookup.Arc.{
  Arc, steps, after-lt, steps-after, after_cases, Arc-self, Arc-after,
}
use stock_data_engine.Book.Lookup.Table.{
  IsTable, Occupied, Empty, Absent, home, hash-lt, present_or_Absent,
}
use stock_data_engine.Book.Lookup.Find.{lookup_find-present, lookup_find-Absent, steps-lt}
use stock_data_engine.Book.Lookup.Shift.{
  IsShifting, slot-fill_self, slot-fill_ne, cleared-IsTable, cleared_ne, not_hole,
}
use stock_data_engine.Book.Lookup.Round.{Arc-nil, keep-IsShifting, move-IsShifting, moved_end}

-- The table `r` is well formed and holds what `t` holds outside `hole`.
record Shifted (t : List LookupSlot) (hole : ℕ) (r : List LookupSlot) : Type 0 where
  valid : IsTable r
  size : length r ≡ length t
  keeps :
      (x : ℕ)
      → x < length t
      → x ≢ hole
      → Occupied t x
      → (y : ℕ) × (y < length r) × (slot r y ≡ slot t x)
  only :
      (y : ℕ)
      → y < length r
      → Occupied r y
      → (x : ℕ) × (x < length t) × (x ≢ hole) × (slot t x ≡ slot r y)

cleared-Shifted :
    (t : List LookupSlot) (hole scan : ℕ)
    → IsShifting t hole scan
    → Empty t scan
    → Shifted t hole (set t hole default_slot)
cleared-Shifted t hole scan v end = record {
  valid = cleared-IsTable t hole scan v end;
  size = length-set t hole default_slot;
  keeps = λ x hx ne occ.
      (x, omega (arith, length-set t hole default_slot), cleared_ne t hole scan v end x ne);
  only = λ y hy occ.
      let ne : y ≢ hole = not_hole t hole scan v end y occ in
      (
        y,
        omega (arith, length-set t hole default_slot),
        ne,
        sym (cleared_ne t hole scan v end y ne),
      );
}

module _ (t : List LookupSlot) (hole scan e : ℕ) (v : IsShifting t hole scan)
    (occ : Occupied t scan) (he : e < length t) (end : Empty t e) (ne_hole : e ≢ hole) where
  moved-Shifted :
      (r : List LookupSlot) → Shifted (set t hole (slot t scan)) scan r → Shifted t hole r
  moved-Shifted r s = record {
    valid = s.valid;
    size = s.size ∙ length-set t hole (slot t scan);
    keeps = λ x hx ne ox. elim (ℕ_discrete x scan) [
      | yes q ↦
          let (y, hy, p) =
            s.keeps hole (omega (arith, size, v.hole_in)) (λ w. v.apart (sym w))
              (rw hole_slot occ) in
          (y, hy, p ∙ (hole_slot ∙ ap (slot t) (sym q)))
      | no q ↦
          let (y, hy, p) = s.keeps x (omega (arith, size)) q (rw (other_slot x ne) ox) in
          (y, hy, p ∙ other_slot x ne)
    ];
    only = λ y hy oy.
        let (x, hx, ne, p) = s.only y hy oy in
        elim (ℕ_discrete x hole) [
          | yes q ↦ (scan, v.scan_in, v.apart, sym hole_slot ∙ (ap (slot _) (sym q) ∙ p))
          | no q ↦ (x, omega (arith, size), q, sym (other_slot x q) ∙ p)
        ];
  }
    where
      size : length (set t hole (slot t scan)) ≡ length t
      size = length-set t hole (slot t scan)

      hole_slot : slot (set t hole (slot t scan)) hole ≡ slot t scan
      hole_slot = slot-fill_self t hole (slot t scan) v.hole_in

      other_slot : (x : ℕ) → x ≢ hole → slot (set t hole (slot t scan)) x ≡ slot t x
      other_slot = slot-fill_ne t hole (slot t scan) v.hole_in

module _ (n : ℕ) (t : List LookupSlot) (hole scan : ℕ) where
  shift_back-end : Empty t scan → shift_back (suc n) t hole scan ≡ set t hole default_slot
  unfolding shift_back
  shift_back-end end = ground arith

  shift_back-keep :
      Occupied t scan
      → crosses hole scan (home t scan) ≡ false
      → shift_back (suc n) t hole scan ≡ shift_back n t hole (step t scan)
  unfolding shift_back
  shift_back-keep occ e = rw (occ, e)

  shift_back-move :
      Occupied t scan
      → crosses hole scan (home t scan) ≡ true
      → shift_back (suc n) t hole scan ≡ shift_back n (set t hole (slot t scan)) scan (step t scan)
  unfolding shift_back
  shift_back-move occ e = rw (occ, e)

-- With an empty slot outside the hole the loop ends at an empty slot, within as many rounds as that
-- slot is away.
shift_back-Shifted :
    (n : ℕ) (t : List LookupSlot) (hole scan e : ℕ)
    → IsShifting t hole scan
    → e < length t
    → Empty t e
    → e ≢ hole
    → steps (length t) scan e < n
    → Shifted t hole (shift_back n t hole scan)
shift_back-Shifted zero t hole scan e v he end ne m = absurd (omega arith)
shift_back-Shifted (suc n) t hole scan e v he end ne m = elim (v.settled scan v.scan_in v.apart) [
  | inr stop ↦ rw (shift_back-end n t hole scan stop) (cleared-Shifted t hole scan v stop)
  | inl occ ↦
      let apart : scan ≢ e = λ q. ground (arith, q) in
      let closer : steps (length t) (step t scan) e < n =
        omega (arith, steps-after (length t) scan e v.scan_in he apart) in
      elim (Bool-cases (crosses hole scan (home t scan))) [
        | inl moves ↦ rw (shift_back-move n t hole scan occ moves) (
            moved-Shifted t hole scan e v occ he end ne _ (
              shift_back-Shifted n (set t hole (slot t scan)) scan (step t scan) e
                (rw (length-set t hole (slot t scan)) at
                  (move-IsShifting t hole scan e v occ he end ne moves))
                (rw (length-set t hole (slot t scan)) he) (moved_end t hole scan e v occ he end ne)
                (λ q. apart (sym q)) (rw (length-set t hole (slot t scan)) closer)))
        | inr stays ↦ rw (shift_back-keep n t hole scan occ stays) (
            shift_back-Shifted n t hole (step t scan) e
              (keep-IsShifting t hole scan e v occ he end ne stays) he end ne closer)
      ]
]

-- Before the shift: the entry at `hole` is what leaves the table.
shift_start :
    (t : List LookupSlot) (hole e : ℕ)
    → IsTable t
    → hole < length t
    → e < length t
    → e ≢ hole
    → IsShifting t hole (step t hole)
shift_start t hole e v hh he ne = record {
  hole_in = hh;
  scan_in = after-lt (length t) hole hh;
  apart = λ q. ground (arith, after_cases (length t) hole hh);
  settled = λ x hx nx. v.settled x hx;
  stored = λ x hx nx. v.stored x hx;
  distinct = λ x y hx hy nx ny. v.distinct x y hx hy;
  between = λ x hx arc. absurd (Arc-nil (step t hole) x arc);
  reachable = λ j x hj hx nj nx. v.reachable j x hj hx;
  past = λ j hj nj oj over arc. Arc-nil (step t hole) j arc;
}

module _ (t : List LookupSlot) (id : ℕ) where
  erase_from-hit :
      (n pos i : ℕ)
      → pos < length t
      → i < length t
      → steps (length t) pos i < n
      → Occupied t i
      → (slot t i).id ≡ id
      → ((x : ℕ) → x < length t → Arc pos i x → Occupied t x × ((slot t x).id ≢ id))
      → erase_from t id n pos ≡ shift_back (length t) t i (step t i)
  unfolding erase_from
  erase_from-hit zero pos i hp hi hs occ e others = absurd (omega arith)
  erase_from-hit (suc n) pos i hp hi hs occ e others = elim (ℕ_discrete pos i) [
    | yes p ↦ rw p (ground arith)
    | no ne ↦ ground (
      arith,
      others pos hp (Arc-self pos i ne),
      erase_from-hit n (step t pos) i (after-lt (length t) pos hp) hi
          (omega (arith, steps-after (length t) pos i hp hi ne)) occ e
          (λ x hx arc. others x hx (Arc-after (length t) pos i x hp hi hx ne arc)),
    )
  ]

  erase_from-Absent : (n pos : ℕ) → pos < length t → Absent t id → erase_from t id n pos ≡ t
  unfolding erase_from
  erase_from-Absent zero pos hp absent = refl
  erase_from-Absent (suc n) pos hp absent =
      ground
        (arith, absent pos hp, erase_from-Absent n (step t pos) (after-lt (length t) pos hp) absent)

erased-Absent : (t : List LookupSlot) (id : ℕ) → IsTable t → Absent t id → lookup_erase t id ≡ t
unfolding lookup_erase
erased-Absent t id v absent =
    erase_from-Absent t id (length t) _ (hash-lt (length t) id v.sized) absent

-- The outcome of the removal of the entry at `i`.
erased-Shifted :
    (t : List LookupSlot) (i e : ℕ)
    → IsTable t
    → i < length t
    → Occupied t i
    → e < length t
    → Empty t e
    → Shifted t i (lookup_erase t (slot t i).id)
unfolding lookup_erase
erased-Shifted t i e v hi occ he end =
    rw
      (erase_from-hit t (slot t i).id (length t) (home t i) i start hi
        (steps-lt (length t) (home t i) i start hi) occ refl others)
      (shift_back-Shifted (length t) t i (step t i) e (shift_start t i e v hi he ne) he end ne
        (steps-lt (length t) (step t i) e (after-lt (length t) i hi) he))
  where
    ne : e ≢ i
    ne q = ground (arith, q)

    start : home t i < length t
    start = hash-lt (length t) (slot t i).id v.sized

    others :
        (x : ℕ) → x < length t → Arc (home t i) i x → Occupied t x × ((slot t x).id ≢ (slot t i).id)
    others x hx arc =
        let o : Occupied t x = v.reachable i x hi hx occ arc in
        (o, λ q. ground (arith, v.distinct x i hx hi o occ q))

Shifted-find :
    (t : List LookupSlot) (i : ℕ) (r : List LookupSlot) (k : ℕ)
    → IsTable t
    → i < length t
    → Occupied t i
    → Shifted t i r
    → lookup_find r k ≡ (if (slot t i).id == k then none else lookup_find t k)
Shifted-find t i r k v hi occ s = elim (present_or_Absent r k) [
  | inl (y, hy, oy, e) ↦
      let (x, hx, ne, p) = s.only y hy oy in
      let ox : Occupied t x = rw p oy in
      ground (
        arith,
        v.distinct x i hx hi ox occ,
        lookup_find-present r y s.valid hy oy,
        lookup_find-present t x v hx ox,
      )
  | inr gone ↦ elim (ℕ_discrete (slot t i).id k) [
    | yes q ↦ rw (eq→== (slot t i).id k q) (lookup_find-Absent r k s.valid gone)
    | no q ↦
        rw (ne→== (slot t i).id k q, lookup_find-Absent r k s.valid gone)
          (sym (
            lookup_find-Absent t k v (λ x hx ox e.
              let (y, hy, p) = s.keeps x hx (λ w. q (ap (λ z. (slot t z).id) (sym w) ∙ e)) ox in
              gone y hy (ap (λ z. z.state) p ∙ ox) (ap (λ z. z.id) p ∙ e))))
  ]
]

-- Erasing an identifier from a well-formed table with an empty slot leaves a well-formed table of
-- the same size, in which that identifier is not found and every other one is found as before. This
-- holds whether or not the identifier was there.
pub lookup_erase-removes :
    (t : List LookupSlot) (id e : ℕ)
    → IsTable t
    → e < length t
    → Empty t e
    → IsTable (lookup_erase t id)
      × (length (lookup_erase t id) ≡ length t)
      × ((k : ℕ) → lookup_find (lookup_erase t id) k ≡ (if id == k then none else lookup_find t k))
lookup_erase-removes t id e v he end = elim (present_or_Absent t id) [
  | inl (i, hi, occ, q) ↦
      let s : Shifted t i (lookup_erase t (slot t i).id) = erased-Shifted t i e v hi occ he end in
      rw (← q) (s.valid, s.size, λ k. Shifted-find t i _ k v hi occ s)
  | inr absent ↦ rw (erased-Absent t id v absent) (
    v,
    refl,
    λ k. elim (ℕ_discrete id k) [
      | yes p ↦ rw (eq→== id k p, ← p) (lookup_find-Absent t id v absent)
      | no p ↦ rw (ne→== id k p)
    ],
  )
]
