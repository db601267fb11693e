-- ===== src/Book/Ladder.antt =====
-- Price levels of one side in src/order_book.cpp: `level_get_or_add`, `level_remove`, and the walk
-- of `depth`. A side is the level pool with the side's root.
use stock_data_engine.Base.{
  ℕ, zero, suc, Option, none, some, Bool, false, List, [], ◌∷◌, ltb, if◌then◌else◌, length,
}
use stock_data_engine.Book.Types.{PriceLevel, LevelPool, Quote}
use stock_data_engine.Book.Pool.{level_at, level_acquire, level_release}
use stock_data_engine.Book.Tree.{
  Tree, set_left, set_right, set_parent, set_parent?, update, replace_child, rebalance_up,
  level_find, extreme, is_index,
}

pub record Ladder : Type 0 where
  pub pool : LevelPool
  pub root : Option ℕ

abbrev pub tree_of : Ladder → Tree
tree_of l = record { levels = l.pool.levels; root = l.root }

abbrev pub with_tree : Ladder → Tree → Ladder
with_tree l t = record { pool = record (l.pool) { levels = t.levels }; root = t.root }

-- The loop that looks for the parent of a new level, from `cur`.
unfoldable pub descend : ℕ → List PriceLevel → ℕ → ℕ → ℕ
descend zero ls cur p = cur
descend (suc fuel) ls cur p =
    elim (if ltb p (level_at ls cur).price
      then (level_at ls cur).left
      else (level_at ls cur).right) [ none ↦ cur | some next ↦ descend fuel ls next p ]

-- The links of a new level `n` below `parent`, and the rebalancing.
attach : Tree → ℕ → ℕ → ℕ → Tree
unfolding rebalance_up
attach t n parent p =
    let ls = set_parent t.levels n (some parent) in
    let ls' =
      if ltb p (level_at ls parent).price
      then set_left ls parent (some n)
      else set_right ls parent (some n) in
    rebalance_up (suc (length ls)) (record t { levels = ls' }) (some parent)

insert_level : Ladder → ℕ → ℕ → Ladder
unfolding attach descend
insert_level l n p = elim l.root [
  | none ↦ record l { root = some n }
  | some r ↦
      let ls = l.pool.levels in with_tree l (attach (tree_of l) n (descend (length ls) ls r p) p)
]

-- `none` for the level is `level_pool_exhausted`.
unfoldable pub level_get_or_add : Ladder → ℕ → Ladder × Option ℕ
unfolding level_find insert_level level_acquire
level_get_or_add l p = elim (level_find (suc (length l.pool.levels)) l.pool.levels l.root p) [
  | some i ↦ (l, some i)
  | none ↦ elim (level_acquire l.pool p) [
    | none ↦ (l, none)
    | some (n, pool) ↦ (insert_level (record l { pool = pool }) n p, some n)
  ]
]

-- The branch of `level_remove` where both children are there: the tree without `z`, and the level
-- from which to rebalance.
splice_successor : Tree → ℕ → ℕ → Tree × Option ℕ
unfolding replace_child extreme update
splice_successor t z r = elim (extreme t.levels (some r) false) [
  | none ↦ (t, none)
  | some y ↦
      let old_parent = (level_at t.levels y).parent in
      let t' =
        if is_index old_parent z
        then t
        else (let a = replace_child t old_parent y (level_at t.levels y).right in
            let ls = set_right a.levels y (level_at a.levels z).right in
            record a { levels = set_parent? ls (level_at ls y).right (some y) }) in
      let b = replace_child t' (level_at t'.levels z).parent z (some y) in
      let ls = set_left b.levels y (level_at b.levels z).left in
      let ls' = set_parent? ls (level_at ls y).left (some y) in
      (record b { levels = update ls' y }, if is_index old_parent z then some y else old_parent)
]

detach : Tree → ℕ → Tree × Option ℕ
unfolding replace_child splice_successor
detach t z = elim (level_at t.levels z).left [
  | none ↦ (
    replace_child t (level_at t.levels z).parent z (level_at t.levels z).right,
    (level_at t.levels z).parent,
  )
  | some l ↦ elim (level_at t.levels z).right [
    | none ↦ (replace_child t (level_at t.levels z).parent z (some l), (level_at t.levels z).parent)
    | some r ↦ splice_successor t z r
  ]
]

unfoldable pub level_remove : Ladder → ℕ → Ladder
unfolding detach level_release rebalance_up
level_remove l z =
    let (t, start) = detach (tree_of l) z in
    let l' = with_tree l t in
    let released = record l' { pool = level_release l'.pool z } in
    with_tree released (rebalance_up (suc (length t.levels)) (tree_of released) start)

-- The climb of `depth`: up while `cur` is the left child (for bids) or the right one.
unfoldable pub climb : ℕ → List PriceLevel → Bool → ℕ → Option ℕ → Option ℕ
climb zero ls bids cur p = p
climb (suc fuel) ls bids cur none = none
climb (suc fuel) ls bids cur (some p) =
    let rest = climb fuel ls bids p (level_at ls p).parent in
    if is_index (if bids then (level_at ls p).left else (level_at ls p).right) cur
    then rest
    else some p

unfoldable pub next_level : List PriceLevel → Bool → ℕ → Option ℕ
unfolding climb extreme
next_level ls bids i = elim (if bids then (level_at ls i).left else (level_at ls i).right) [
  | some c ↦ extreme ls (some c) bids
  | none ↦ climb (length ls) ls bids i (level_at ls i).parent
]

abbrev pub quote_of : PriceLevel → Quote
quote_of l = record { price = l.price; quantity = l.total_quantity; orders = l.order_count }

-- At most `n` levels from `i` on; `n` is `out.size()`.
unfoldable pub depth_from : ℕ → List PriceLevel → Bool → Option ℕ → List Quote
unfolding next_level
depth_from zero ls bids i = []
depth_from (suc n) ls bids none = []
depth_from (suc n) ls bids (some i) =
    quote_of (level_at ls i) ∷ depth_from n ls bids (next_level ls bids i)
