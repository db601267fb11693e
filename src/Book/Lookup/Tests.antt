-- ===== src/Book/Lookup/Tests.antt =====
-- The hash table of src/order_book.cpp from the empty table on.
use stock_data_engine.Base.{
  ℕ, ◌≡◌, refl, sym, ◌∙◌, subst, inl, none, some, List, [], ◌∷◌, length, replicate, arith, ◌==◌,
  if◌then◌else◌,
}
use mathlib.Core.Option.{some-injective}
use stock_data_engine.Book.Types.{LookupSlot, default_slot}
use stock_data_engine.Book.Lookup.{lookup_find, lookup_insert, lookup_erase, entry, hash}
use stock_data_engine.Book.Lookup.Table.{fresh-IsTable, fresh-Empty, IsTable}
use stock_data_engine.Book.Lookup.Find.{lookup_find-Absent}
use stock_data_engine.Book.Lookup.Insert.{lookup_insert-adds, lookup_insert-refuses}
use stock_data_engine.Book.Lookup.Erase.{lookup_erase-removes}

-- The table that the constructor makes for two orders.
abbrev fresh : List LookupSlot
fresh = replicate 4 default_slot

-- The table with order 5 under the identifier 42.
abbrev one_entry : List LookupSlot
one_entry = default_slot ∷ default_slot ∷ entry 42 5 ∷ default_slot ∷ []

insert_42 : lookup_insert fresh 42 5 ≡ some one_entry
unfolding lookup_insert hash
insert_42 = refl

one_entry-IsTable : IsTable one_entry
one_entry-IsTable =
    let (t, e, v, size, finds) =
      lookup_insert-adds fresh 42 5 0 (fresh-IsTable 4 (omega arith))
        (lookup_find-Absent fresh 42 (fresh-IsTable 4 (omega arith))
          (λ x hx occ. ground (arith, fresh-Empty 4 x)))
        (omega arith) refl in
    subst IsTable (some-injective _ _ (sym e ∙ insert_42)) v

find_42 : lookup_find one_entry 42 ≡ some 5
unfolding lookup_find hash
find_42 = refl

miss_43 : lookup_find one_entry 43 ≡ none
unfolding lookup_find hash
miss_43 = refl

lookup_insert-adds_example :
    (t : List LookupSlot) × (lookup_insert one_entry 43 6 ≡ some t)
    × IsTable t
    × (length t ≡ 4)
    × ((k : ℕ) → lookup_find t k ≡ (if 43 == k then some 6 else lookup_find one_entry k))
lookup_insert-adds_example =
    lookup_insert-adds one_entry 43 6 0 one_entry-IsTable miss_43 (omega arith) refl

lookup_insert-refuses_example : lookup_insert one_entry 42 6 ≡ none
lookup_insert-refuses_example =
    lookup_insert-refuses one_entry 42 6 one_entry-IsTable (inl (λ e. ground (arith, e, find_42)))

lookup_erase-removes_example :
    IsTable (lookup_erase one_entry 42)
    × (length (lookup_erase one_entry 42) ≡ 4)
    × ((k : ℕ)
        → lookup_find (lookup_erase one_entry 42) k
          ≡ (if 42 == k then none else lookup_find one_entry k))
lookup_erase-removes_example =
    lookup_erase-removes one_entry 42 0 one_entry-IsTable (omega arith) refl
