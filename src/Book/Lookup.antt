-- ===== src/Book/Lookup.antt =====
-- The open-addressed table of src/order_book.cpp: `hash`, `lookup_find`, `lookup_insert` and
-- `lookup_erase` over `lookup_`. A slot's index is below the table's size; `home` is the hash.
pub mod Arc
pub mod Table
pub mod Find
pub mod Insert
pub mod Shift
pub mod Round
pub mod Erase
mod Tests
use Prim.Native.Nat.{bit_xor}
use stock_data_engine.Base.{
  ℕ, zero, suc, ◌+◌, ◌*◌, ◌/◌, ◌%◌, ◌^◌, Option, none, some, Bool, true, false, List, length,
  get_or, set, ◌==◌, leb, ltb, ◌&&◌, ◌||◌, if◌then◌else◌,
}
use stock_data_engine.Book.Types.{SlotState, empty, occupied, tombstone, LookupSlot, default_slot}

-- The mixing steps on a 64-bit word; the last step is `x % lookup_.size()`.
mix : ℕ → ℕ
mix x =
    let a = bit_xor x (x / 2 ^ 30) in
    let b = (a * 0xbf58476d1ce4e5b9) % 2 ^ 64 in
    let c = bit_xor b (b / 2 ^ 27) in
    let d = (c * 0x94d049bb133111eb) % 2 ^ 64 in bit_xor d (d / 2 ^ 31)

unfoldable pub hash : ℕ → ℕ → ℕ
unfolding mix
hash size x = mix x % size

abbrev pub slot : List LookupSlot → ℕ → LookupSlot
slot t i = get_or t i default_slot

abbrev pub is_empty : SlotState → Bool
is_empty empty = true
is_empty occupied = false
is_empty tombstone = false

abbrev pub is_occupied : SlotState → Bool
is_occupied empty = false
is_occupied occupied = true
is_occupied tombstone = false

abbrev pub is_tombstone : SlotState → Bool
is_tombstone empty = false
is_tombstone occupied = false
is_tombstone tombstone = true

-- The next slot in probe order.
abbrev pub step : List LookupSlot → ℕ → ℕ
step t pos = (pos + 1) % length t

-- `s.state == LookupSlot::occupied && s.id == id`
abbrev pub holds : LookupSlot → ℕ → Bool
holds s id = is_occupied s.state && (s.id == id)

abbrev pub entry : ℕ → ℕ → LookupSlot
entry id order = record { id = id; order = some order; state = occupied }

-- The loop of `lookup_find`, with `n` rounds left.
unfoldable pub find_from : List LookupSlot → ℕ → ℕ → ℕ → Option ℕ
find_from t id zero pos = none
find_from t id (suc n) pos =
    let rest = find_from t id n (step t pos) in
    if is_empty (slot t pos).state
    then none
    else if holds (slot t pos) id
    then (slot t pos).order
    else rest

unfoldable pub lookup_find : List LookupSlot → ℕ → Option ℕ
unfolding find_from
lookup_find t id = find_from t id (length t) (hash (length t) id)

-- The loop of `lookup_insert`; `tomb` is `first_tomb`, `none` while that is `lookup_.size()`. The
-- result is `none` where the source returns false.
abbrev first_tomb : Option ℕ → SlotState → ℕ → Option ℕ
first_tomb none s pos = if is_tombstone s then some pos else none
first_tomb (some i) s pos = some i

abbrev at_tomb : Option ℕ → ℕ → ℕ
at_tomb none pos = pos
at_tomb (some i) pos = i

unfoldable pub insert_from : List LookupSlot → ℕ → ℕ → ℕ → ℕ → Option ℕ → Option (List LookupSlot)
insert_from t id o zero pos none = none
insert_from t id o zero pos (some i) = some (set t i (entry id o))
insert_from t id o (suc n) pos tomb =
    let s = slot t pos in
    let tomb' = first_tomb tomb s.state pos in
    let rest = insert_from t id o n (step t pos) tomb' in
    if holds s id
    then none
    else if is_empty s.state
    then some (set t (at_tomb tomb' pos) (entry id o))
    else rest

unfoldable pub lookup_insert : List LookupSlot → ℕ → ℕ → Option (List LookupSlot)
unfolding insert_from
lookup_insert t id o = insert_from t id o (length t) (hash (length t) id) none

-- The test that moves the entry at `scan`, whose hash is `home`, back to `hole`.
unfoldable pub crosses : ℕ → ℕ → ℕ → Bool
crosses hole scan home =
    if leb hole scan then leb home hole || ltb scan home else leb home hole && ltb scan home

-- The loop of the backward shift, with at most `n` rounds. It ends at an empty slot.
unfoldable pub shift_back : ℕ → List LookupSlot → ℕ → ℕ → List LookupSlot
shift_back zero t hole scan = set t hole default_slot
shift_back (suc n) t hole scan =
    let moved = shift_back n (set t hole (slot t scan)) scan (step t scan) in
    let kept = shift_back n t hole (step t scan) in
    if is_empty (slot t scan).state
    then set t hole default_slot
    else if crosses hole scan (hash (length t) (slot t scan).id)
    then moved
    else kept

-- The loop that looks for the entry, with `n` rounds left.
unfoldable pub erase_from : List LookupSlot → ℕ → ℕ → ℕ → List LookupSlot
erase_from t id zero pos = t
erase_from t id (suc n) pos =
    let rest = erase_from t id n (step t pos) in
    if is_empty (slot t pos).state
    then t
    else if holds (slot t pos) id
    then shift_back (length t) t pos (step t pos)
    else rest

unfoldable pub lookup_erase : List LookupSlot → ℕ → List LookupSlot
unfolding erase_from shift_back crosses
lookup_erase t id = erase_from t id (length t) (hash (length t) id)
