-- ===== src/Table.antt =====
-- The methods of `class table` in lighttable.cpp, run by one thread. Where a method reads a
-- `struct value tmp` that it has not set, what the stack holds there is the argument `tmp`.
pub mod Valid
pub mod Read
pub mod Insert
pub mod Write
pub mod Types
use lighttable.Prelude.{
  ℕ, ◌+◌, ◌-◌, ◌*◌, ◌^◌, Bool, true, false, ◌&&◌, ◌||◌, Option, none, some, List, [], ◌∷◌, ltb, leb,
  ◌==◌, if◌then◌else◌, length, take, ◌++◌,
}
use lighttable.Prelude.Word.{to_int, to_size}
use lighttable.Struct.{
  Bytes, Key, StringSlot, Value, with_b, b_of, TableKey, lt_nil, lt_number, lt_boolean, lt_ud,
  lt_string,
}
use lighttable.Util.{new_string}
use lighttable.Lmap.{
  Node, NodeKey, strkey, numkey, Lmap, new_lmap, search, insert_value, copy_map,
  delete_without_data, get_ref, get_size, set_ref,
}
use lighttable.State.{
  Ptr, Lstring, Table, State, Run, ok, fault, assertion_failed, spins, wild_access, Method, pure,
  ◌>>=◌, ◌>>◌, assert, write,
}

abbrev pub max_hash_depth : ℕ
max_hash_depth = 7

-- `table::table`, given the first size, `next_prime(DEFAULT_SIZE)`.
unfoldable pub new_table : ℕ → Table
new_table map_size = record { ref = 1; lock = 0; map_lock = 0; map = new_lmap map_size }

unfoldable pub table_lock : Method (Unit {0})
table_lock s =
    if s.table.lock == 0
    then ok tt (record s { table = record s.table { lock = 1 } })
    else fault spins

unfoldable pub table_unlock : Method (Unit {0})
table_unlock s = ok tt (record s { table = record s.table { lock = 0 } })

-- `while (__sync_lock_test_and_set(&map_lock, 1)) {}` and `__sync_lock_release(&map_lock)`.
take_map_lock : Method (Unit {0})
take_map_lock s =
    if s.table.map_lock == 0
    then ok tt (record s { table = record s.table { map_lock = 1 } })
    else fault spins

free_map_lock : Method (Unit {0})
free_map_lock s = ok tt (record s { table = record s.table { map_lock = 0 } })

this_map : Method Lmap
this_map s = ok s.table.map s

set_map : Lmap → Method (Unit {0})
set_map m s = ok tt (record s { table = record s.table { map = m } })

-- `ref > 1` of an `int`.
abbrev pub above_one : ℕ → Bool
above_one ref = ltb 1 ref && ltb ref (2 ^ 31)

unfoldable pub grab_map : Method Lmap
unfolding take_map_lock free_map_lock this_map set_map
grab_map = do
  take_map_lock
  m ← this_map
  let ref = to_int (get_ref m + 1)
  assert (above_one ref)
  set_map (set_ref m ref)
  free_map_lock
  pure (set_ref m ref)

-- `free` of an address.
unfoldable pub free_slot : Ptr → Method (Unit {0})
free_slot p s = elim (s.slots p) [
  | some _ ↦ ok tt (record s { slots = write s.slots p none })
  | none ↦ fault wild_access
]

unfoldable pub load_lstring : Ptr → Method Lstring
load_lstring p s = elim (s.lstrings p) [ some l ↦ ok l s | none ↦ fault wild_access ]

unfoldable pub store_lstring : Ptr → Option Lstring → Method (Unit {0})
store_lstring p l s = ok tt (record s { lstrings = write s.lstrings p l })

-- `_release` of the table that a value points to: in the memory of one table there is none. With
-- several tables that is World.Release.clear_at.
unfoldable pub release_other : Ptr → Method (Unit {0})
release_other t s = fault wild_access

unfoldable pub clear_value : Value → Method (Unit {0})
clear_value v =
    if v.type == lt_string
    then (do l ← load_lstring v.v; free_slot l.slot; store_lstring v.v none)
    else (if v.type == lt_ud then release_other v.v else pure tt)

unfoldable pub clear_values : List Value → Method (Unit {0})
clear_values [] = pure tt
clear_values (v ∷ vs) = clear_value v >> clear_values vs

-- `delete m`.
unfoldable pub delete_map : Lmap → Method (Unit {0})
delete_map m = clear_values (delete_without_data m.buckets)

-- The count is written to `this->map`, which is `m` where no other thread has replaced it.
-- Deleting `m` then leaves the table without its map.
unfoldable pub release_map : Lmap → Method (Unit {0})
unfolding this_map set_map
release_map m = do
  let ref = to_int (get_ref m + 2 ^ 32 - 1)
  current ← this_map
  set_map (set_ref current ref)
  if ref == 0 then (λ s. fault wild_access) else pure tt

-- The loop ends after one round, since `this->map` is still `m`.
unfoldable pub search_map : Key → Value → Method Value
search_map k result = do m ← grab_map; release_map m; pure (search m k result)

unfoldable pub search_table : Key → Value → Method Value
unfolding search_map
search_table k result = search_map k result

-- The type, and the eight bytes copied to `tv`.
unfoldable pub get_type : Key → Value → Method (ℕ × ℕ)
get_type k tmp = do r ← search_table k tmp; pure (r.type, r.v)

unfoldable pub get_number : Key → Value → Method ℕ
get_number k tmp = do
  r ← search_table k tmp
  assert (r.type == lt_nil || r.type == lt_number)
  pure r.v

unfoldable pub get_boolean : Key → Value → Method ℕ
get_boolean k tmp = do
  r ← search_table k tmp
  assert (r.type == lt_nil || r.type == lt_boolean)
  pure (b_of r.v)

unfoldable pub get_ud : Key → Value → Method ℕ
get_ud k tmp = do r ← search_table k tmp; assert (r.type == lt_nil || r.type == lt_ud); pure r.v

-- `_update_map`: the reference that the table held on the old map is given up, on a copy of its
-- count, and the map is deleted if that was the last.
unfoldable pub update_map : Lmap → Lmap → Method (Unit {0})
unfolding take_map_lock free_map_lock this_map set_map
update_map old m = do
  take_map_lock
  set_map m
  free_map_lock
  if to_int (get_ref old + 2 ^ 32 - 1) == 0 then delete_map old else pure tt

-- `_copy_map` writes to the values of the old map, so `update_map` is handed the map as it is left.
-- The lines that are printed here and in `_insert_map_value`, with the time taken, are left out.
unfoldable pub expand_hash : Method (Unit {0})
unfolding this_map
expand_hash = do
  old ← this_map
  let new_size = to_int (get_size old * 2)
  let copied = copy_map (new_lmap (to_size new_size)) old
  update_map copied.1 copied.0

unfoldable pub insert_map_value : Key → Value → Method ℕ
unfolding this_map set_map
insert_map_value k v = do
  m ← this_map
  let r = insert_value m k v 0
  set_map r.2
  (if leb max_hash_depth r.1 then expand_hash else pure tt)
  pure r.0

unfoldable pub insert_table : Key → Value → Method ℕ
insert_table k v = do table_lock; type ← insert_map_value k v; table_unlock; pure type

-- What a setter returns: 0 for success.
abbrev pub refused : ℕ → ℕ → ℕ
refused type wanted = if type == wanted || type == lt_nil then 0 else 1

unfoldable pub set_number : Key → ℕ → Value → Method ℕ
set_number k n tmp = do
  type ← insert_table k (record tmp { type = lt_number; v = n })
  pure (refused type lt_number)

unfoldable pub set_boolean : Key → ℕ → Value → Method ℕ
set_boolean k b tmp = do
  type ← insert_table k (record tmp { type = lt_boolean; v = with_b tmp.v b })
  pure (refused type lt_boolean)

unfoldable pub set_ud : Key → ℕ → Value → Method ℕ
set_ud k ud tmp = do
  type ← insert_table k (record tmp { type = lt_ud; v = ud })
  pure (refused type lt_ud)
