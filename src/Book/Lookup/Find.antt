-- ===== src/Book/Lookup/Find.antt =====
-- `lookup_find` of src/order_book.cpp finds exactly what a well-formed table holds.
use stock_data_engine.Base.{ℕ, zero, suc, ◌<◌, ◌≡◌, ◌≢◌, refl, none, List, length, arith}
use native.Mathlib.Decide.{ℕ_discrete}
use stock_data_engine.Book.Types.{LookupSlot}
use stock_data_engine.Book.Lookup.{slot, step, find_from, lookup_find}
use stock_data_engine.Book.Lookup.Arc.{Arc, steps, after-lt, steps-after, Arc-self, Arc-after}
use stock_data_engine.Book.Lookup.Table.{IsTable, Occupied, Absent, home, hash-lt}

module _ (t : List LookupSlot) (id : ℕ) where
  -- The probe walks over other entries to the one at `i`.
  find_from-hit :
      (n pos i : ℕ)
      → pos < length t
      → i < length t
      → steps (length t) pos i < n
      → Occupied t i
      → (slot t i).id ≡ id
      → ((x : ℕ) → x < length t → Arc pos i x → Occupied t x × ((slot t x).id ≢ id))
      → find_from t id n pos ≡ (slot t i).order
  unfolding find_from
  find_from-hit zero pos i hp hi hs occ e others = absurd (omega arith)
  find_from-hit (suc n) pos i hp hi hs occ e others = elim (ℕ_discrete pos i) [
    | yes p ↦ rw p (ground arith)
    | no ne ↦ ground (
      arith,
      others pos hp (Arc-self pos i ne),
      find_from-hit n (step t pos) i (after-lt (length t) pos hp) hi
          (omega (arith, steps-after (length t) pos i hp hi ne)) occ e
          (λ x hx arc. others x hx (Arc-after (length t) pos i x hp hi hx ne arc)),
    )
  ]

  find_from-Absent : (n pos : ℕ) → pos < length t → Absent t id → find_from t id n pos ≡ none
  unfolding find_from
  find_from-Absent zero pos hp absent = refl
  find_from-Absent (suc n) pos hp absent =
      ground
        (arith, absent pos hp, find_from-Absent n (step t pos) (after-lt (length t) pos hp) absent)

pub steps-lt : (size a b : ℕ) → a < size → b < size → steps size a b < size
steps-lt size a b ha hb = ground arith

-- An entry is found under its identifier.
pub lookup_find-present :
    (t : List LookupSlot) (i : ℕ)
    → IsTable t
    → i < length t
    → Occupied t i
    → lookup_find t (slot t i).id ≡ (slot t i).order
unfolding lookup_find
lookup_find-present t i v hi occ =
    find_from-hit t (slot t i).id (length t) (home t i) i start hi
      (steps-lt (length t) (home t i) i start hi) occ refl others
  where
    start : home t i < length t
    start = hash-lt (length t) (slot t i).id v.sized

    others :
        (x : ℕ) → x < length t → Arc (home t i) i x → Occupied t x × ((slot t x).id ≢ (slot t i).id)
    others x hx arc =
        let o : Occupied t x = v.reachable i x hi hx occ arc in
        (o, λ e. ground (arith, v.distinct x i hx hi o occ e))

pub lookup_find-Absent :
    (t : List LookupSlot) (id : ℕ) → IsTable t → Absent t id → lookup_find t id ≡ none
unfolding lookup_find
lookup_find-Absent t id v absent =
    find_from-Absent t id (length t) _ (hash-lt (length t) id v.sized) absent
