-- ===== src/Book/Fifo/Unlink.antt =====
-- `unlink` of src/order_book.cpp takes an order out of its level's queue, wherever it stands.
use stock_data_engine.Base.{
  ℕ, ◌≡◌, refl, sym, ap, subst, ◌∙◌, append-nil, none, some, Option-cases, inl, inr, List, [], ◌∷◌,
  ◌++◌, arith, get_or-set_ne, length-append, IsU64,
}
use stock_data_engine.Book.Types.{Order, PriceLevel, default_order}
use stock_data_engine.Book.Pool.{order_at}
use stock_data_engine.Book.Fifo.{set_next, set_prev, unlink, unlink_prev, unlink_next}
use stock_data_engine.Book.Fifo.Distinct.{
  NotIn, Distinct, first_or, last_or, last_some, last-append_cons, Distinct-removed, Distinct-split,
  last-apart, first-apart,
}
use stock_data_engine.Book.Fifo.Links.{
  Links, Links_split, Links-append, Links-set, Links-set_next, Links-set_prev,
}
use stock_data_engine.Book.Fifo.Queue.{
  IsQueue, AllSameButLinks, quantities-same, quantities-append, set-AllSameButLinks,
  AllSameButLinks_trans, Links-inside, SameButQueue, SameButQueue-trans,
}

-- After the first half: the part in front leads to the part behind.
record Bridged (os : List Order) (l : PriceLevel) (front : List ℕ) (o : ℕ) (back : List ℕ)
    (os' : List Order) (l' : PriceLevel) : Type 0 where
  before : Links os' none front (first_or back none)
  after : Links os' (some o) back none
  own : order_at os' o ≡ order_at os o
  head_is : l'.head ≡ first_or (front ++ back) none
  tail_is : l'.tail ≡ l.tail
  same : AllSameButLinks os os'

module _ (os : List Order) (l : PriceLevel) (o : ℕ) (back : List ℕ)
    (behind : Links os (some o) back none)
    (next_is : (order_at os o).next ≡ first_or back none) where
  unlink_prev-Bridged :
      (front : List ℕ)
      → Links os none front (some o)
      → (order_at os o).prev ≡ last_or none front
      → l.head ≡ first_or (front ++ o ∷ back) none
      → Distinct (front ++ o ∷ back)
      → Bridged os l front o back (unlink_prev os l o).0 (unlink_prev os l o).1
  unlink_prev-Bridged [] links prev_is head_is d =
      rw (prev_is, unlink_prev)
        (record {
          before = tt;
          after = behind;
          own = refl;
          head_is = next_is;
          tail_is = refl;
          same = λ k. (refl, refl, refl, refl, refl, refl, refl);
        })
  unlink_prev-Bridged (x ∷ xs) links prev_is head_is d =
      rw (prev_is ∙ last, unlink_prev)
        (record {
          before =
              subst (λ m. Links (set_next os t m) none (x ∷ xs) (first_or back none)) (sym next_is)
                (Links-set_next os none x xs (some o) (first_or back none) t last
                  (Distinct-split (x ∷ xs) (o ∷ back) d).0 links);
          after = Links-set os t _ (some o) back none others.1 behind;
          own = get_or-set_ne os t o _ default_order others.0;
          head_is = head_is;
          tail_is = refl;
          same =
              set-AllSameButLinks os t _ (Links-inside os none x xs (some o) t links last)
                (refl, refl, refl, refl, refl, refl, refl);
        })
    where
      t : ℕ
      t = (last_some x xs).0

      last : last_or (some x) xs ≡ some t
      last = (last_some x xs).1

      others : NotIn t (o ∷ back)
      others = last-apart x xs (o ∷ back) t d last

-- After the second half: one list again.
record Closed (os : List Order) (l : PriceLevel) (front back : List ℕ) (os' : List Order)
    (l' : PriceLevel) : Type 0 where
  links : Links os' none (front ++ back) none
  head_is : l'.head ≡ l.head
  tail_is : l'.tail ≡ last_or none (front ++ back)
  same : AllSameButLinks os os'

unlink_next-Closed :
    (os : List Order) (l : PriceLevel) (o : ℕ) (front back : List ℕ)
    → Links os none front (first_or back none)
    → Links os (some o) back none
    → (order_at os o).prev ≡ last_or none front
    → (order_at os o).next ≡ first_or back none
    → l.tail ≡ last_or none (front ++ o ∷ back)
    → Distinct (front ++ o ∷ back)
    → Closed os l front back (unlink_next os l o).0 (unlink_next os l o).1
unlink_next-Closed os l o front [] before after prev_is next_is tail_is d =
    rw (next_is, unlink_next)
      (record {
        links = Links-append os none front [] none before tt;
        head_is = refl;
        tail_is = rw (append-nil front) prev_is;
        same = λ k. (refl, refl, refl, refl, refl, refl, refl);
      })
unlink_next-Closed os l o front (b ∷ bs) before after prev_is next_is tail_is d =
    rw (next_is, unlink_next)
      (record {
        links =
            Links-append os' none front (b ∷ bs) none
              (Links-set os b _ none front (some b) (first-apart front b bs rest) before)
              (rw (← prev_is) (
                Links-set_prev os (some o) (order_at os o).prev b bs none
                  (Distinct-split front (b ∷ bs) rest).1 after));
        head_is = refl;
        tail_is =
            tail_is
            ∙ (last-append_cons none front o (b ∷ bs) ∙ sym (last-append_cons none front b bs));
        same = set-AllSameButLinks os b _ after.0 (refl, refl, refl, refl, refl, refl, refl);
      })
  where
    os' : List Order
    os' = set_prev os b (order_at os o).prev

    rest : Distinct (front ++ b ∷ bs)
    rest = (Distinct-removed front o (b ∷ bs) d).0

unlink_prev-SameButQueue :
    (os : List Order) (l : PriceLevel) (o : ℕ) → SameButQueue l (unlink_prev os l o).1
unlink_prev-SameButQueue os l o = elim (Option-cases (order_at os o).prev) [
  | inl first ↦ rw (first, unlink_prev) (refl, refl, refl, refl, refl, refl, refl)
  | inr (p, e) ↦ rw (e, unlink_prev) (refl, refl, refl, refl, refl, refl, refl)
]

unlink_next-SameButQueue :
    (os : List Order) (l : PriceLevel) (o : ℕ) → SameButQueue l (unlink_next os l o).1
unlink_next-SameButQueue os l o = elim (Option-cases (order_at os o).next) [
  | inl last ↦ rw (last, unlink_next) (refl, refl, refl, refl, refl, refl, refl)
  | inr (n, e) ↦ rw (e, unlink_next) (refl, refl, refl, refl, refl, refl, refl)
]

-- Unlinking an order of a 64-bit quantity from any place in the queue of a level leaves the others
-- in their order, takes its quantity from the total and counts one order less, modulo 2^64 and
-- 2^32; it changes nothing else of the level, and of any order of the pool nothing but `prev` and
-- `next`.
pub unlink-IsQueue :
    (os : List Order) (l : PriceLevel) (o : ℕ) (front back : List ℕ)
    → IsQueue os l (front ++ o ∷ back)
    → IsU64 (order_at os o).quantity
    → IsQueue (unlink os l o).0 (unlink os l o).1 (front ++ back)
      × AllSameButLinks os (unlink os l o).0
      × SameButQueue l (unlink os l o).1
unfolding unlink
unlink-IsQueue os l o front back v small =
    let (before, here) = Links_split os none front (o ∷ back) none v.links in
    let p =
      unlink_prev-Bridged os l o back here.3 here.2 front before here.1 v.head_is v.distinct in
    let (os1, l1) = unlink_prev os l o in
    let q =
      unlink_next-Closed (unlink_prev os l o).0 (unlink_prev os l o).1 o front back p.before p.after
        (ap (λ w. w.prev) p.own ∙ here.1) (ap (λ w. w.next) p.own ∙ here.2) (p.tail_is ∙ v.tail_is)
        v.distinct in
    let same = AllSameButLinks_trans os _ (unlink os l o).0 p.same q.same in
    (
      record {
        links = q.links;
        distinct = (Distinct-removed front o back v.distinct).0;
        head_is = q.head_is ∙ p.head_is;
        tail_is = q.tail_is;
        total = omega (
          arith,
          v.total,
          small,
          (same o).2,
          quantities-append os front (o ∷ back),
          quantities-append os front back,
          quantities-same os (unlink os l o).0 (front ++ back) same,
        );
        count = omega (arith, v.count, length-append front (o ∷ back), length-append front back);
      },
      same,
      SameButQueue-trans l (unlink_prev os l o).1 (unlink os l o).1
          (unlink_prev-SameButQueue os l o)
          (unlink_next-SameButQueue (unlink_prev os l o).0 (unlink_prev os l o).1 o),
    )
