-- ===== src/Book/Tree.antt =====
-- The AVL trees over `levels_` in src/order_book.cpp: heights, child links, rotations, rebalancing,
-- and the searches. A root passed by reference stands beside the levels. Where the source would
-- index with -1, which is undefined there, a function leaves the tree as it is. Heights, `int8_t` in
-- the source, are plain numbers. The loops that follow links take fuel.
use stock_data_engine.Base.{
  ℕ, zero, suc, ◌+◌, max, Option, none, some, Bool, false, List, set, ◌==◌, ltb, if◌then◌else◌,
  length,
}
use stock_data_engine.Book.Types.{PriceLevel}
use stock_data_engine.Book.Pool.{level_at}

pub record Tree : Type 0 where
  pub levels : List PriceLevel
  pub root : Option ℕ

abbrev pub is_index : Option ℕ → ℕ → Bool
is_index none i = false
is_index (some j) i = j == i

abbrev pub set_left : List PriceLevel → ℕ → Option ℕ → List PriceLevel
set_left ls i c = set ls i (record (level_at ls i) { left = c })

abbrev pub set_right : List PriceLevel → ℕ → Option ℕ → List PriceLevel
set_right ls i c = set ls i (record (level_at ls i) { right = c })

abbrev pub set_parent : List PriceLevel → ℕ → Option ℕ → List PriceLevel
set_parent ls i p = set ls i (record (level_at ls i) { parent = p })

-- `if (i != none) levels_[i].parent = p`
abbrev pub set_parent? : List PriceLevel → Option ℕ → Option ℕ → List PriceLevel
set_parent? ls none p = ls
set_parent? ls (some i) p = set_parent ls i p

abbrev pub height : List PriceLevel → Option ℕ → ℕ
height ls none = 0
height ls (some i) = (level_at ls i).height

unfoldable pub update : List PriceLevel → ℕ → List PriceLevel
update ls i = set ls i (record l { height = 1 + max (height ls l.left) (height ls l.right) })
  where
    l : PriceLevel
    l = level_at ls i

abbrev pub swap_child : Tree → Option ℕ → ℕ → Option ℕ → Tree
swap_child t none oldc newc = record t { root = newc }
swap_child t (some p) oldc newc = record t {
  levels =
      if is_index (level_at t.levels p).left oldc
      then set_left t.levels p newc
      else set_right t.levels p newc;
}

unfoldable pub replace_child : Tree → Option ℕ → ℕ → Option ℕ → Tree
replace_child t p oldc newc =
    let t' = swap_child t p oldc newc in record t' { levels = set_parent? t'.levels newc p }

-- The links below the new top `y` of a left rotation at `x`, from `levels_[y].left = x` on.
relink_left : List PriceLevel → ℕ → ℕ → Option ℕ → List PriceLevel
unfolding update
relink_left ls x y beta =
    let a = set_left ls y (some x) in
    let b = set_parent a x (some y) in
    let c = set_right b x beta in let d = set_parent? c beta (some x) in update (update d x) y

unfoldable pub rotate_left : Tree → ℕ → Tree × ℕ
unfolding replace_child relink_left
rotate_left t x = elim (level_at t.levels x).right [
  | none ↦ (t, x)
  | some y ↦
      let t' = replace_child t (level_at t.levels x).parent x (some y) in
      (record t' { levels = relink_left t'.levels x y (level_at t.levels y).left }, y)
]

relink_right : List PriceLevel → ℕ → ℕ → Option ℕ → List PriceLevel
unfolding update
relink_right ls y x beta =
    let a = set_right ls x (some y) in
    let b = set_parent a y (some x) in
    let c = set_left b y beta in let d = set_parent? c beta (some y) in update (update d y) x

unfoldable pub rotate_right : Tree → ℕ → Tree × ℕ
unfolding replace_child relink_right
rotate_right t y = elim (level_at t.levels y).left [
  | none ↦ (t, y)
  | some x ↦
      let t' = replace_child t (level_at t.levels y).parent y (some x) in
      (record t' { levels = relink_right t'.levels y x (level_at t.levels x).right }, x)
]

-- Where `balance > 1`: the inner rotation at the left child, if it leans right, and the outer one.
lean_left : Tree → ℕ → Tree × ℕ
unfolding rotate_left rotate_right
lean_left t i = elim (level_at t.levels i).left [
  | none ↦ (t, i)
  | some c ↦
      let l = level_at t.levels c in
      let t' =
        if ltb (height t.levels l.left) (height t.levels l.right) then (rotate_left t c).0 else t in
      rotate_right t' i
]

lean_right : Tree → ℕ → Tree × ℕ
unfolding rotate_left rotate_right
lean_right t i = elim (level_at t.levels i).right [
  | none ↦ (t, i)
  | some c ↦
      let l = level_at t.levels c in
      let t' =
        if ltb (height t.levels l.right) (height t.levels l.left)
        then (rotate_right t c).0
        else t in
      rotate_left t' i
]

-- One round of `rebalance_up`: the new tree, and `top`.
unfoldable pub rebalance_at : Tree → ℕ → Tree × ℕ
unfolding update lean_left lean_right
rebalance_at t i =
    let t' = record t { levels = update t.levels i } in
    let l = height t'.levels (level_at t'.levels i).left in
    let r = height t'.levels (level_at t'.levels i).right in
    if ltb (r + 1) l then lean_left t' i else if ltb (l + 1) r then lean_right t' i else (t', i)

unfoldable pub rebalance_up : ℕ → Tree → Option ℕ → Tree
unfolding rebalance_at
rebalance_up zero t i = t
rebalance_up (suc fuel) t none = t
rebalance_up (suc fuel) t (some i) =
    let (t', top) = rebalance_at t i in rebalance_up fuel t' (level_at t'.levels top).parent

unfoldable pub level_find : ℕ → List PriceLevel → Option ℕ → ℕ → Option ℕ
level_find zero ls i p = none
level_find (suc fuel) ls none p = none
level_find (suc fuel) ls (some i) p =
    let l = level_at ls i in
    let rest = level_find fuel ls (if ltb p l.price then l.left else l.right) p in
    if p == l.price then some i else rest

-- Follow one kind of child to its end.
unfoldable pub extreme_from : ℕ → List PriceLevel → ℕ → Bool → ℕ
extreme_from zero ls i maximum = i
extreme_from (suc fuel) ls i maximum =
    elim (if maximum then (level_at ls i).right else (level_at ls i).left) [
      | none ↦ i
      | some next ↦ extreme_from fuel ls next maximum
    ]

unfoldable pub extreme : List PriceLevel → Option ℕ → Bool → Option ℕ
unfolding extreme_from
extreme ls none maximum = none
extreme ls (some i) maximum = some (extreme_from (length ls) ls i maximum)
