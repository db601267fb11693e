-- ===== src/Book/Fifo/Append.antt =====
-- `append` of src/order_book.cpp puts an order at the end of its level's queue.
use stock_data_engine.Base.{
  ℕ, ◌+◌, ◌%◌, ◌^◌, ◌<◌, ◌≡◌, ◌≢◌, refl, sym, ◌∙◌, none, some, List, [], ◌∷◌, ◌++◌, length, arith,
  get_or-set_self, length-set, length-append,
}
use stock_data_engine.Book.Types.{Order, PriceLevel, default_order}
use stock_data_engine.Book.Pool.{order_at}
use stock_data_engine.Book.Fifo.{set_next, set_links, append}
use stock_data_engine.Book.Fifo.Distinct.{
  NotIn, last_or, Distinct-snoc, last_some, last-append, last-NotIn,
}
use stock_data_engine.Book.Fifo.Links.{Links, Links-append, Links-set, Links-set_next}
use stock_data_engine.Book.Fifo.Queue.{
  IsQueue, AllSameButLinks, quantities, quantities-same, quantities-append, set-AllSameButLinks,
  AllSameButLinks_trans, Links-inside, SameButQueue,
}

module _ (os : List Order) (l : PriceLevel) (o : ℕ) where
  append_empty :
      l.tail ≡ none
      → append os l o ≡ (
        set_links os o none none,
        record l {
          head = some o;
          tail = some o;
          total_quantity =
              (l.total_quantity + (order_at (set_links os o none none) o).quantity) % 2 ^ 64;
          order_count = (l.order_count + 1) % 2 ^ 32;
        },
      )
  unfolding append
  append_empty e = rw e refl

  append_behind :
      (t : ℕ)
      → l.tail ≡ some t
      → append os l o ≡ (
        set_next (set_links os o (some t) none) t (some o),
        record l {
          tail = some o;
          total_quantity =
              (l.total_quantity
                + (order_at (set_next (set_links os o (some t) none) t (some o)) o).quantity)
              % 2 ^ 64;
          order_count = (l.order_count + 1) % 2 ^ 32;
        },
      )
  unfolding append
  append_behind t e = rw e refl

-- The sums after the order has joined.
joined_total :
    (os os' : List Order) (l : PriceLevel) (xs : List ℕ) (o : ℕ)
    → IsQueue os l xs
    → AllSameButLinks os os'
    → (l.total_quantity + (order_at os' o).quantity) % 2 ^ 64
      ≡ quantities os' (xs ++ o ∷ []) % 2 ^ 64
joined_total os os' l xs o v same =
    omega (arith, v.total, quantities-append os' xs (o ∷ []), quantities-same os os' xs same)

joined_count :
    (os : List Order) (l : PriceLevel) (xs : List ℕ) (o : ℕ)
    → IsQueue os l xs
    → (l.order_count + 1) % 2 ^ 32 ≡ length (xs ++ o ∷ []) % 2 ^ 32
joined_count os l xs o v = omega (arith, v.count, length-append xs (o ∷ []))

-- Appending an order of the pool that is not queued to the queue of a level puts it behind all
-- others, adds its quantity to the total and counts it, modulo 2^64 and 2^32; it changes nothing
-- else of the level, and of any order of the pool nothing but `prev` and `next`.
pub append-IsQueue :
    (os : List Order) (l : PriceLevel) (o : ℕ) (xs : List ℕ)
    → IsQueue os l xs
    → o < length os
    → NotIn o xs
    → IsQueue (append os l o).0 (append os l o).1 (xs ++ o ∷ [])
      × AllSameButLinks os (append os l o).0
      × SameButQueue l (append os l o).1
append-IsQueue os l o [] v ho out =
    let same : AllSameButLinks os (set_links os o none none) =
      set-AllSameButLinks os o (record (order_at os o) { prev = none; next = none }) ho
        (refl, refl, refl, refl, refl, refl, refl) in
    let own : order_at (set_links os o none none) o
        ≡ record (order_at os o) { prev = none; next = none } =
      get_or-set_self os o _ default_order ho in
    rw (append_empty os l o v.tail_is) (
      record {
        links = (
          omega (arith, length-set os o (record (order_at os o) { prev = none; next = none }), ho),
          rw own,
          rw own,
          tt,
        );
        distinct = (tt, tt);
        head_is = refl;
        tail_is = refl;
        total = joined_total os _ l [] o v same;
        count = joined_count os l [] o v;
      },
      same,
      (refl, refl, refl, refl, refl, refl, refl),
    )
append-IsQueue os l o (x ∷ xs) v ho out = rw (append_behind os l o t (v.tail_is ∙ last)) (
  record {
    links =
        Links-append os2 none (x ∷ xs) (o ∷ []) none
          (Links-set_next os1 none x xs none (some o) t last v.distinct
            (Links-set os o linked none (x ∷ xs) none out v.links))
          (rw last (
            Links-set os1 t (record (order_at os1 t) { next = some o }) (some t) (o ∷ []) none
              (λ e. apart (sym e), tt) own));
    distinct = Distinct-snoc (x ∷ xs) o v.distinct out;
    head_is = v.head_is;
    tail_is = sym (last-append none (x ∷ xs) o);
    total = joined_total os os2 l (x ∷ xs) o v same;
    count = joined_count os l (x ∷ xs) o v;
  },
  same,
  (refl, refl, refl, refl, refl, refl, refl),
)
  where
    t : ℕ
    t = (last_some x xs).0

    last : last_or (some x) xs ≡ some t
    last = (last_some x xs).1

    linked : Order
    linked = record (order_at os o) { prev = some t; next = none }

    os1 : List Order
    os1 = set_links os o (some t) none

    os2 : List Order
    os2 = set_next os1 t (some o)

    apart : o ≢ t
    apart = last-NotIn o t x xs last out

    own : Links os1 (some t) (o ∷ []) none
    own =
        let e : order_at os1 o ≡ linked = get_or-set_self os o linked default_order ho in
        (omega (arith, length-set os o linked, ho), rw e, rw e, tt)

    same : AllSameButLinks os os2
    same =
        AllSameButLinks_trans os os1 os2
          (set-AllSameButLinks os o linked ho (refl, refl, refl, refl, refl, refl, refl))
          (set-AllSameButLinks os1 t (record (order_at os1 t) { next = some o })
            (omega (arith, length-set os o linked, Links-inside os none x xs none t v.links last))
            (refl, refl, refl, refl, refl, refl, refl))
