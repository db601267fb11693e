-- ===== src/Book/Lookup/Round.antt =====
-- One round of the backward shift of src/order_book.cpp keeps the loop's invariant.
use stock_data_engine.Base.{
  ℕ, ◌<◌, ◌≡◌, ◌≢◌, ◌⊎◌, inl, inr, List, length, set, arith, ◌==◌, if◌then◌else◌, true, false,
  length-set, eq→==, ne→==,
}
use native.Mathlib.Decide.{ℕ_discrete}
use stock_data_engine.Book.Types.{LookupSlot}
use stock_data_engine.Book.Lookup.{slot, crosses}
use stock_data_engine.Book.Lookup.Arc.{Arc, after, after-lt, after_cases, Arc-snoc, Arc-round}
use stock_data_engine.Book.Lookup.Table.{Occupied, Empty, home}
use stock_data_engine.Book.Lookup.Shift.{IsShifting, slot-fill_self, slot-fill_ne}

-- What the test of the source says: an entry that stays is not reached over the hole.
pub crosses-stays :
    (hole scan h : ℕ) → scan ≢ hole → crosses hole scan h ≡ false → ¬ Arc h scan hole
unfolding crosses
crosses-stays hole scan h ne e arc = ground arith

-- An entry that moves is reached over the hole, or at it.
pub crosses-moves :
    (hole scan h x : ℕ) → scan ≢ hole → crosses hole scan h ≡ true → Arc h hole x → Arc h scan x
unfolding crosses
crosses-moves hole scan h x ne e arc = ground arith

pub Arc-nil : (a x : ℕ) → ¬ Arc a a x
Arc-nil a x arc = omega arith

module _ (t : List LookupSlot) (hole scan e : ℕ) (v : IsShifting t hole scan)
    (occ : Occupied t scan) (he : e < length t) (end : Empty t e) (ne_hole : e ≢ hole) where
  -- The scan does not come round: it would have met the empty slot.
  pub next_apart : after (length t) scan ≢ hole
  next_apart round = ground (
    arith,
    v.between e he (
        Arc-round (length t) hole scan e v.hole_in v.scan_in he round ne_hole
          (λ q. ground (arith, q))),
  )

  pub keep-IsShifting :
      crosses hole scan (home t scan) ≡ false → IsShifting t hole (after (length t) scan)
  keep-IsShifting stays = record {
    hole_in = v.hole_in;
    scan_in = after-lt (length t) scan v.scan_in;
    apart = next_apart;
    settled = v.settled;
    stored = v.stored;
    distinct = v.distinct;
    between =
        λ x hx arc. elim (grown x hx arc) [ inl q ↦ rw q occ | inr arc' ↦ v.between x hx arc' ];
    reachable = v.reachable;
    past = λ j hj ne oj over arc. elim (grown j hj arc) [
      | inl q ↦ crosses-stays hole scan (home t scan) v.apart stays (rw q at over)
      | inr arc' ↦ v.past j hj ne oj over arc'
    ];
  }
    where
      grown :
          (x : ℕ)
          → x < length t
          → Arc (after (length t) hole) (after (length t) scan) x
          → (x ≡ scan) ⊎ Arc (after (length t) hole) scan x
      grown x hx arc =
          Arc-snoc (length t) (after (length t) hole) scan x (after-lt (length t) hole v.hole_in)
            v.scan_in hx
            (λ q. ground (
              arith,
              after_cases (length t) hole v.hole_in,
              after_cases (length t) scan v.scan_in,
              v.apart,
            ))
            arc

  abbrev moved : List LookupSlot
  moved = set t hole (slot t scan)

  moved_size : length moved ≡ length t
  moved_size = length-set t hole (slot t scan)

  moved_hole : slot moved hole ≡ slot t scan
  moved_hole = slot-fill_self t hole (slot t scan) v.hole_in

  moved_ne : (x : ℕ) → x ≢ hole → slot moved x ≡ slot t x
  moved_ne = slot-fill_ne t hole (slot t scan) v.hole_in

  -- Where the entry at `x` of the new table stood before.
  abbrev origin : ℕ → ℕ
  origin x = if x == hole then scan else x

  slot-moved : (x : ℕ) → slot moved x ≡ slot t (origin x)
  slot-moved x = elim (ℕ_discrete x hole) [
    | yes q ↦ rw (eq→== x hole q, q) moved_hole
    | no q ↦ rw (ne→== x hole q) (moved_ne x q)
  ]

  origin-lt : (x : ℕ) → x < length moved → origin x < length t
  origin-lt x hx = ground (arith, moved_size, v.scan_in)

  origin-ne : (x : ℕ) → origin x ≢ hole
  origin-ne x q = ground (arith, v.apart)

  moved-reachable :
      crosses hole scan (home t scan) ≡ true
      → (j x : ℕ) → j < length moved
      → x < length moved
      → Occupied moved j
      → Arc (home moved j) j x
      → Occupied moved x
  moved-reachable moves j x hj hx oj arc = elim (ℕ_discrete x hole) [
    | yes q ↦ rw (q, moved_hole) occ
    | no nx ↦ rw (moved_ne x nx) (elim (ℕ_discrete j hole) [
      | yes q ↦ v.reachable scan x v.scan_in (omega (arith, moved_size)) v.apart nx occ (
          crosses-moves hole scan (home t scan) x v.apart moves
            (rw (q, moved_hole, moved_size) at arc))
      | no nj ↦
          v.reachable j x (omega (arith, moved_size)) (omega (arith, moved_size)) nj nx
            (rw (moved_ne j nj) at oj) (rw (moved_ne j nj, moved_size) at arc)
    ])
  ]

  pub move-IsShifting :
      crosses hole scan (home t scan) ≡ true → IsShifting moved scan (after (length moved) scan)
  move-IsShifting moves = record {
    hole_in = omega (arith, moved_size, v.scan_in);
    scan_in = after-lt (length moved) scan (omega (arith, moved_size, v.scan_in));
    apart = λ q. ground (
      arith,
      after_cases (length moved) scan (omega (arith, moved_size, v.scan_in)),
      moved_size,
      v.hole_in,
      v.apart,
    );
    settled = λ x hx ne. rw (slot-moved x) (v.settled (origin x) (origin-lt x hx) (origin-ne x));
    stored = λ x hx ne ox.
        rw (slot-moved x)
          (v.stored (origin x) (origin-lt x hx) (origin-ne x) (rw (slot-moved x) at ox));
    distinct = λ x y hx hy nx ny ox oy q. ground (
      arith,
      v.distinct (origin x) (origin y) (origin-lt x hx) (origin-lt y hy) (origin-ne x) (origin-ne y)
          (rw (slot-moved x) at ox) (rw (slot-moved y) at oy)
          (rw (slot-moved x, slot-moved y) at q),
    );
    between = λ x hx arc. absurd (Arc-nil (after (length moved) scan) x arc);
    reachable = λ j x hj hx nj nx. moved-reachable moves j x hj hx;
    past = λ j hj ne oj over arc. Arc-nil (after (length moved) scan) j arc;
  }

  pub moved_end : Empty moved e
  moved_end = rw (moved_ne e ne_hole) end
