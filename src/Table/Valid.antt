-- ===== src/Table/Valid.antt =====
-- Reads of a table in lighttable.cpp.
use lighttable.Prelude.{ℕ, ◌^◌, ◌<◌, none, ◌≡◌, refl, Option, sym}
use mathlib.Core.Path.{subst}
use lighttable.Struct.{Key, Value}
use lighttable.Lmap.{search, new_lmap}
use lighttable.Lmap.Valid.{IsValid, view, new_lmap-IsValid}
use lighttable.State.{Table, State, ok}
use lighttable.Table.{new_table, grab_map, release_map, search_table}

-- No method is running: both locks are free and the table alone refers to its map.
pub record IsTable (t : Table) : Type 0 where
  pub map : IsValid t.map
  pub held : t.map.ref ≡ 1
  pub unlocked : t.lock ≡ 0
  pub map_unlocked : t.map_lock ≡ 0

abbrev pub reads : State → Key → Option Value
reads s k = view s.table.map k

-- The state with the locks free and one reference to the map.
abbrev pub at_rest : State → State
at_rest s = record s {
  table = record s.table { lock = 0; map_lock = 0; map = record s.table.map { ref = 1 } };
}

at_rest-eq : {s : State} → IsTable s.table → at_rest s ≡ s
at_rest-eq {s} quiet = λ i. record s {
  table = record s.table {
    lock = sym quiet.unlocked i;
    map_lock = sym quiet.map_unlocked i;
    map = record s.table.map { ref = sym quiet.held i };
  };
}

-- What holds of every state at rest holds where no method is running.
pub by_rest : (P : State → Type 0) (s : State) → IsTable s.table → P (at_rest s) → P s
by_rest P s quiet h = subst P (at_rest-eq quiet) h

module _ (s : State) (quiet : IsTable s.table) where
  -- A search leaves the state as it was: the locks and the count of references included.
  pub search_table-ok :
      (k : Key) (tmp : Value) → search_table k tmp s ≡ ok (search s.table.map k tmp) s
  unfolding search_table grab_map release_map search
  search_table-ok k tmp =
      by_rest (λ s'. search_table k tmp s' ≡ ok (search s'.table.map k tmp) s') s quiet refl

-- A new table whose first size is from 1 and one that an int can hold is one that no method works
-- on: its map is valid, the locks are free, the table alone refers to its map; it has one
-- reference, and no key has an entry.
pub new_table-IsTable :
    (map_size : ℕ)
    → 0 < map_size
    → map_size < 2 ^ 31
    → IsTable (new_table map_size)
      × ((new_table map_size).ref ≡ 1)
      × ((k : Key) → view (new_table map_size).map k ≡ none)
unfolding new_table new_lmap
new_table-IsTable map_size pos small =
    let (valid, none_there) = new_lmap-IsValid map_size pos small in
    (record { map = valid; held = refl; unlocked = refl; map_unlocked = refl }, refl, none_there)
