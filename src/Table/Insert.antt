-- ===== src/Table/Insert.antt =====
-- _insert_table and _expand_hash of lighttable.cpp.
use lighttable.Prelude.{
  ℕ, ◌+◌, ◌-◌, ◌*◌, ◌^◌, ◌≡◌, refl, ◌≤◌, ◌<◌, true, some, [], arith, leb, ◌==◌, if◌then◌else◌,
  Bool-cases, inl, inr, sym, ◌∙◌,
}
use mathlib.Core.Path.{subst}
use lighttable.Prelude.Word.{to_int, to_size}
use lighttable.Struct.{Key, Value}
use lighttable.Lmap.{Lmap, insert_value, new_lmap, copy_map, delete_without_data}
use lighttable.Lmap.Stored.{IsKey, same_key}
use lighttable.Lmap.Chain.{replaced, type_of}
use lighttable.Lmap.Valid.{IsValid, view}
use lighttable.Lmap.Insert.{insert_value-IsValid, view-insert_value}
use lighttable.Lmap.Count.{insert_value-type}
use lighttable.Lmap.Delete.{copy_map-view, copy_map-Keeps}
use lighttable.State.{State, ok}
use lighttable.Table.{
  max_hash_depth, table_lock, table_unlock, expand_hash, update_map, delete_map, clear_values,
  insert_map_value, insert_table,
}
use lighttable.Table.Valid.{IsTable, reads}

-- The map after an insertion, expanded where the walk was long.
unfoldable pub expanded : Lmap → Lmap
expanded m = (copy_map (new_lmap (m.size * 2)) m).0

-- The old map goes without a value being freed if its values are held elsewhere.
update_map-ok :
    (old m : Lmap) (s : State)
    → old.ref ≡ 1
    → delete_without_data old.buckets ≡ []
    → s.table.map_lock ≡ 0
    → update_map old m s ≡ ok tt (record s { table = record s.table { map = m } })
unfolding update_map delete_map clear_values
update_map-ok old m s held kept free =
    let last : (to_int (old.ref + 2 ^ 32 - 1) == 0) ≡ true = ground arith in
    subst
      (λ l.
        let s' : State = record s { table = record s.table { map_lock = l } } in
        update_map old m s' ≡ ok tt (record s' { table = record s'.table { map = m } }))
      (sym free) (rw (last, kept) refl)

-- A table expands by replacing its map; the old map's values are kept.
expand_hash-ok :
    (s : State)
    → IsValid s.table.map
    → s.table.map.ref ≡ 1
    → s.table.map_lock ≡ 0
    → s.table.map.size < 2 ^ 30
    → expand_hash s ≡ ok tt (record s { table = record s.table { map = expanded s.table.map } })
unfolding expand_hash expanded copy_map
expand_hash-ok s valid held free room =
    let e : to_size (to_int (s.table.map.size * 2)) ≡ s.table.map.size * 2 = ground arith in
    let kept =
      (copy_map-view valid (s.table.map.size * 2) (omega (arith, valid.pos)) (omega arith)).3 in
    rw e (update_map-ok _ _ s held kept free)

-- What an insertion does to the table: the map, and nothing else. The map doubles where the walk
-- passed seven nodes.
pub record Inserted (s : State) (k : Key) (v : Value) (s' : State) : Type 0 where
  pub quiet : IsTable s'.table
  pub reads_as :
      (q : Key) → reads s' q ≡ (if same_key q k then some (replaced (reads s k) v) else reads s q)
  pub grown : s'.table.map.size ≡ (
      if leb max_hash_depth (insert_value s.table.map k v 0).1
      then s.table.map.size * 2
      else s.table.map.size)
  pub ref : s'.table.ref ≡ s.table.ref
  pub lstrings : s'.lstrings ≡ s.lstrings
  pub slots : s'.slots ≡ s.slots

pub Inserted-size :
    {s s' : State} {k : Key} {v : Value}
    → Inserted s k v s'
    → s'.table.map.size ≤ s.table.map.size * 2
Inserted-size {s} {s'} {k} {v} is =
    elim (Bool-cases (leb max_hash_depth (insert_value s.table.map k v 0).1)) [
      | inl deep ↦ let e = is.grown in omega (arith, rw deep at e)
      | inr flat ↦ let e = is.grown in omega (arith, rw flat at e)
    ]

abbrev then_map : Lmap → ℕ → Lmap
then_map m depth = if leb max_hash_depth depth then expanded m else m

insert_map_value-ok :
    (s : State) (k : Key) (v : Value)
    → IsValid s.table.map
    → s.table.map.ref ≡ 1
    → s.table.map_lock ≡ 0
    → IsKey k
    → s.table.map.size < 2 ^ 30
    → let r = insert_value s.table.map k v 0 in
      insert_map_value k v s
      ≡ ok r.0 (record s { table = record s.table { map = then_map r.2 r.1 } })
unfolding insert_map_value insert_value
insert_map_value-ok s k v valid held free key room =
    let r = insert_value s.table.map k v 0 in
    let s' : State = record s { table = record s.table { map = r.2 } } in
    elim (Bool-cases (leb max_hash_depth r.1)) [
      | inl long ↦
          rw (long, expand_hash-ok s' (insert_value-IsValid valid k v key 0) held free room) refl
      | inr short ↦ rw short refl
    ]

module _ (m : Lmap) (valid : IsValid m) (held : m.ref ≡ 1) (room : m.size < 2 ^ 30) where
  expanded-view :
      IsValid (expanded m) × ((expanded m).ref ≡ 1) × ((q : Key) → view (expanded m) q ≡ view m q)
  unfolding expanded new_lmap
  expanded-view =
      let pos : 0 < m.size * 2 = omega (arith, valid.pos) in
      let (v, size, same, _) = copy_map-view valid (m.size * 2) pos (omega arith) in
      (v, (copy_map-Keeps valid (m.size * 2) pos (omega arith)).ref, same)

  then_map-view :
      (depth : ℕ)
      → IsValid (then_map m depth)
        × ((then_map m depth).ref ≡ 1)
        × ((q : Key) → view (then_map m depth) q ≡ view m q)
  then_map-view depth = elim (Bool-cases (leb max_hash_depth depth)) [
    | inl long ↦ rw long expanded-view
    | inr short ↦ rw short (valid, held, λ q. refl)
  ]

then_map-size :
    (m : Lmap) (valid : IsValid m)
    → m.size < 2 ^ 30
    → (depth : ℕ)
    → (then_map m depth).size ≡ (if leb max_hash_depth depth then m.size * 2 else m.size)
unfolding expanded
then_map-size m valid room depth = elim (Bool-cases (leb max_hash_depth depth)) [
  | inl long ↦ rw long (copy_map-view valid (m.size * 2) (omega (arith, valid.pos)) (omega arith)).1
  | inr short ↦ rw short refl
]

-- On a table that no method works on, with fewer than 2^30 slots, and for a key that an int can
-- hold, _insert_table returns the type that the key had. Afterwards no method works on the table,
-- the locks are free, the key reads as the new value (with the old type and references where there
-- was one), every other key reads as before, and no string or reference to the table has changed;
-- the number of slots has doubled exactly where the insertion walked past seven nodes or more.
pub insert_table-Inserted :
    (s : State) (k : Key) (v : Value)
    → IsTable s.table
    → IsKey k
    → s.table.map.size < 2 ^ 30
    → (s' : State) × (insert_table k v s ≡ ok (type_of (reads s k)) s') × Inserted s k v s'
unfolding insert_table table_lock table_unlock insert_value
insert_table-Inserted s k v quiet key room =
    let r = insert_value s.table.map k v 0 in
    let s₁ : State = record s { table = record s.table { lock = 1 } } in
    let free : (s.table.lock == 0) ≡ true = ground (arith, quiet.unlocked) in
    let run = insert_map_value-ok s₁ k v quiet.map quiet.held quiet.map_unlocked key room in
    let (valid, held, same) =
      then_map-view r.2 (insert_value-IsValid quiet.map k v key 0) quiet.held room r.1 in
    (
      record s { table = record s.table { lock = 0; map = then_map r.2 r.1 } },
      rw (free, run, ← insert_value-type quiet.map k v 0) refl,
      record {
        quiet = record {
          map = valid;
          held = held;
          unlocked = refl;
          map_unlocked = quiet.map_unlocked;
        };
        reads_as = λ q. same q ∙ view-insert_value quiet.map k v key 0 q;
        grown = then_map-size r.2 (insert_value-IsValid quiet.map k v key 0) room r.1;
        ref = refl;
        lstrings = refl;
        slots = refl;
      },
    )
