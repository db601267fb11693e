-- ===== src/Book/Engine/Refusal.antt =====
-- What a refused `add` of src/order_book.cpp leaves behind.
use stock_data_engine.Base.{
  ℕ, ◌<◌, ◌≡◌, ◌≢◌, refl, sym, ap, ◌∙◌, none, some, List, length, set, arith, get_or, [], ◌∷◌, zero,
  suc, ap₂, subst, some_eq, inl, inr, Option-cases, Bool-cases, true, ◌==◌,
}
use stock_data_engine.Itch.Messages.{Side, buy, sell}
use stock_data_engine.Book.Types.{BookError, OrderBook, OrderPool, default_order, LookupSlot}
use stock_data_engine.Book.Pool.{order_at, acquire_order, release_order}
use stock_data_engine.Book.Lookup.{lookup_find, lookup_insert}
use stock_data_engine.Book.Lookup.Table.{IsTable, Empty}
use stock_data_engine.Book.Lookup.Insert.{lookup_insert-adds}
use stock_data_engine.Book.Ladder.{Ladder, level_get_or_add}
use stock_data_engine.Book.Engine.{ladder, with_ladder, release, add, add_level, add_entry, fill}

-- The order that is next to be given out has been reset.
abbrev pub NextIsReset : OrderPool → Type 0
NextIsReset p =
    (i : ℕ)
    → p.free_order ≡ some i
    → order_at p.orders i ≡ record default_order { free_next = (order_at p.orders i).free_next }

set-set {ℓ} : {A : Type ℓ} (xs : List A) (i : ℕ) (v w : A) → set (set xs i v) i w ≡ set xs i w
set-set [] i v w = refl
set-set (x ∷ xs) zero v w = refl
set-set (x ∷ xs) (suc i) v w = ap (λ ys. x ∷ ys) (set-set xs i v w)

set_same {ℓ} : {A : Type ℓ} (xs : List A) (i : ℕ) (d : A) → set xs i (get_or xs i d) ≡ xs
set_same [] i d = refl
set_same (x ∷ xs) zero d = refl
set_same (x ∷ xs) (suc i) d = ap (λ ys. x ∷ ys) (set_same xs i d)

acquire_order-next :
    (p : OrderPool) (i : ℕ)
    → p.free_order ≡ some i
    → acquire_order p
      ≡ some (
        i,
        record {
          orders = set p.orders i (record default_order { active = true });
          free_order = (order_at p.orders i).free_next;
        },
      )
unfolding acquire_order
acquire_order-next p i q = rw q refl

acquire_order-none : (p : OrderPool) → p.free_order ≡ none → acquire_order p ≡ none
unfolding acquire_order
acquire_order-none p q = rw q refl

-- Giving back at once the order that was taken restores the pool.
pub release_order-acquire_order :
    (p : OrderPool) (o : ℕ) (p' : OrderPool)
    → NextIsReset p
    → acquire_order p ≡ some (o, p')
    → release_order p' o ≡ p
unfolding release_order
release_order-acquire_order p o p' reset e = elim (Option-cases p.free_order) [
  | inl q ↦ ground (arith, e, acquire_order-none p q)
  | inr (i, q) ↦
      subst (λ x. release_order x.1 x.0 ≡ p) (some_eq (sym (acquire_order-next p i q) ∙ e))
        (ap₂ (λ os f. record { orders = os; free_order = f })
          (set-set p.orders i _ _
            ∙ (ap (set p.orders i) (sym (reset i q)) ∙ set_same p.orders i default_order))
          (sym q))
]

level_get_or_add-none :
    (l : Ladder) (p : ℕ) → (level_get_or_add l p).1 ≡ none → (level_get_or_add l p).0 ≡ l
unfolding level_get_or_add
level_get_or_add-none l p e = ground (arith, e)

with_ladder_self : (b : OrderBook) (side : Side) → with_ladder b side (ladder b side) ≡ b
with_ladder_self b buy = refl
with_ladder_self b sell = refl

with_ladder-lookup :
    (b : OrderBook) (side : Side) (l : Ladder) → (with_ladder b side l).lookup ≡ b.lookup
with_ladder-lookup b buy l = refl
with_ladder-lookup b sell l = refl

add_entry-enters :
    (b : OrderBook) (o id : ℕ) (side : Side) (li : ℕ) (t : List LookupSlot)
    → lookup_insert b.lookup id o ≡ some t
    → (add_entry b o id side li).0 ≡ BookError.none
unfolding add_entry
add_entry-enters b o id side li t ins = rw (ins, add_entry) refl

add_level-refused :
    (b : OrderBook) (o id : ℕ) (side : Side) (q p : ℕ) (t : List LookupSlot)
    → lookup_insert b.lookup id o ≡ some t
    → (add_level b o id side q p).0 ≢ BookError.none
    → (add_level b o id side q p).1 ≡ release b o
unfolding add_level
add_level-refused b o id side q p t ins refused =
    elim (Option-cases (level_get_or_add (ladder b side) p).1) [
      | inl e ↦
          rw (e, add_level, level_get_or_add-none (ladder b side) p e, with_ladder_self b side) refl
      | inr (li, e) ↦ absurd (
          refused (
            rw (e, add_level)
              (add_entry-enters
                (fill (with_ladder b side (level_get_or_add (ladder b side) p).0) o id side q p li)
                o id side li t
                (rw (with_ladder-lookup b side (level_get_or_add (ladder b side) p).0) ins))))
    ]

-- Whenever `add` returns an error, the book is exactly as before: on a well-formed lookup table with
-- an empty slot, and when the order that is next to be given out has been reset.
pub add-refused :
    (b : OrderBook) (id : ℕ) (side : Side) (q p i : ℕ)
    → IsTable b.lookup
    → i < length b.lookup
    → Empty b.lookup i
    → NextIsReset b.order_pool
    → (add b id side q p).0 ≢ BookError.none
    → (add b id side q p).1 ≡ b
unfolding add
add-refused b id side q p i v hi empty_i reset refused = elim (Bool-cases (q == 0)) [
  | inl zero_q ↦ rw (zero_q, add) refl
  | inr some_q ↦ elim (Option-cases (lookup_find b.lookup id)) [
    | inr (o, found) ↦ rw (some_q, found, add) refl
    | inl new ↦ elim (Option-cases (acquire_order b.order_pool)) [
      | inl full ↦ rw (some_q, new, full, add) refl
      | inr ((o, pool), e) ↦
          let (t, ins, v', size, finds) = lookup_insert-adds b.lookup id o i v new hi empty_i in
          rw (some_q, new, e, add)
            (add_level-refused (record b { order_pool = pool }) o id side q p t ins
                (rw (some_q, new, e, add) at refused)
              ∙ ap (λ x. record b { order_pool = x })
                  (release_order-acquire_order b.order_pool o pool reset e))
    ]
  ]
]
