-- ===== src/Programs/Clean.antt =====
-- The program main.cpp leaves the tables and their strings as they were.
use lighttable.Prelude.{
  ℕ, ◌^◌, ◌≡◌, ◌≢◌, refl, sym, ap, ◌∙◌, ◌<◌, false, Option, none, some, List, [], ◌∷◌, ◌==◌,
  if◌then◌else◌, arith, Bool-cases, inl, inr,
}
use lighttable.Struct.{Key, Value, lt_string}
use lighttable.Lmap.{Node, new_lmap}
use lighttable.Lmap.Stored.{same_key, same_key_iff}
use lighttable.Lmap.Nodes.{key, nodes, DistinctKeys, values-nodes, nodes-view, distinct}
use lighttable.Lmap.Delete.{chain_values, values}
use lighttable.State.{Ptr, State, ok}
use lighttable.Table.{new_table}
use lighttable.Table.Valid.{IsTable, reads}
use lighttable.Keys.Found.{All}
use lighttable.Table.Valid.{new_table-IsTable}
use lighttable.Strings.{set_string, get_string}
use lighttable.Strings.Text.{Added, set_string-new, get_string-ok}
use lighttable.World.{World, entering, leaving, on}
use lighttable.World.Life.{Heap, create_table, destroy_table}
use lighttable.World.Reading.{on-same}
use lighttable.World.Release.{delete_at, release_at}
use lighttable.World.Cells.{table_at, has, Without}
use lighttable.World.Owned.{text, nil, thing, cells, all_cells, depth, HasSlot, Holds, AllHold}
use lighttable.World.Freed.{put_table, put_table_at, clear_all-Without, delete_at-Clears}
use lighttable.World.Supply.{Supply}
use lighttable.Programs.Main.{str, valuestr, main}
use lighttable.Dictionary.Entries.{Read, reads-All}

-- The values of a table with one entry.
one_node :
    (k : Key) (v : Value) (s : State) (ns : List Node)
    → ((q : Key) (u : Value) → reads s q ≡ some u → (q ≡ k) × (u ≡ v))
    → All (Read s) ns
    → DistinctKeys ns
    → ns ≢ []
    → chain_values ns ≡ v ∷ []
unfolding chain_values
one_node k v s [] only found different some_node = absurd (some_node refl)
one_node k v s (n ∷ []) only (e, found) different some_node =
    ap (λ u. u ∷ []) (only (key n) n.v e).1
one_node k v s (n ∷ m ∷ ns) only (e, (e', found)) ((ne, _), _) some_node =
    absurd (ne ((only (key n) n.v e).0 ∙ sym (only (key m) m.v e').0))

nodes-ne-nil :
    (s : State) (k : Key) (v : Value) → reads s k ≡ some v → nodes s.table.map.buckets ≢ []
unfolding chain_values
nodes-ne-nil s k v e empty =
    reads-All (λ u. ⊥) s k v e
      (let none_there : values s.table.map.buckets ≡ [] =
          values-nodes s.table.map.buckets ∙ ap chain_values empty in
        rw none_there tt)

the_entry :
    (s : State) (k : Key) (v : Value)
    → ((q : Key) → reads s q ≡ (if same_key q k then some v else none))
    → (q : Key) (u : Value) → reads s q ≡ some u
    → (q ≡ k) × (u ≡ v)
the_entry s k v entries q u e = elim (Bool-cases (same_key q k)) [
  | inl same ↦ ((same_key_iff q k).0 same, cc (e, rw same at (entries q)))
  | inr other ↦ cc (e, rw other at (entries q))
]

-- Where a table has one entry, that is its one value.
one_value :
    (s : State) (k : Key) (v : Value)
    → IsTable s.table
    → ((q : Key) → reads s q ≡ (if same_key q k then some v else none))
    → values s.table.map.buckets ≡ v ∷ []
one_value s k v quiet entries =
    values-nodes s.table.map.buckets
    ∙ one_node k v s (nodes s.table.map.buckets) (the_entry s k v entries) (nodes-view quiet.map)
        (distinct quiet.map) (nodes-ne-nil s k v (rw (entries k, (same_key_iff k k).1 refl) refl))

-- The tables and the strings that values hold are the same. The slots of keys, nodes and maps are
-- no part of this memory.
pub record SameMemory (w w' : World) : Type 0 where
  pub tables : (p : Ptr) → w'.memory.tables p ≡ w.memory.tables p
  pub lstrings : (p : Ptr) → w'.memory.lstrings p ≡ w.memory.lstrings p
  pub slots : (p : Ptr) → w'.memory.slots p ≡ w.memory.slots p

-- What holds where there was something, and where there was nothing, holds.
unchanged {ℓ} :
    {A : Type ℓ} (o o' : Option A)
    → ((a : A) → o ≡ some a → o' ≡ some a)
    → (o ≡ none → o' ≡ none)
    → o' ≡ o
unchanged none o' kept none_kept = none_kept refl
unchanged (some a) o' kept none_kept = kept a refl

module _ (heap : Heap) (Room : ℕ → World → Type 0) (supply : Supply heap Room) (tmp : Value)
    (w : World) (room : Room 2 w) (pos : 0 < heap.first_size)
    (small : heap.first_size < 2 ^ 30) where
  abbrev q : Ptr
  q = heap.new_table_at w

  abbrev k : Key
  k = Key.name str

  abbrev created : World
  created = put_table w q (new_table heap.first_size)

  created-room : Room 1 created
  created-room =
      supply.less 1 w created room
        (record { tables = λ p ne e. ground arith; lstrings = λ p ne e. e; slots = λ p ne e. e })

  -- The state that set_string works on.
  abbrev s : State
  s = entering created (new_table heap.first_size)

  abbrev ls : Ptr
  ls = heap.malloc_lstring created

  abbrev ns : Ptr
  ns = heap.malloc_slot created

  set_string-Added :
      (s' : State) × (set_string k valuestr ls ns tmp s ≡ ok 0 s') × Added s k tmp ls ns valuestr s'
  unfolding new_table new_lmap
  set_string-Added =
      let (quiet, _, none_there) = new_table-IsTable heap.first_size pos (omega (arith, small)) in
      set_string-new s quiet k tmp ls ns valuestr (omega arith) (omega (arith, small))
        (none_there k) (supply.lstring 0 created created-room) (supply.slot 0 created created-room)
        (omega arith)

  -- The lstrings and slots but the new ones are as they were.
  kept-lstrings :
      (s' : State)
      → Added s k tmp ls ns valuestr s'
      → (p : Ptr) → p ≢ ls
      → s'.lstrings p ≡ w.memory.lstrings p
  kept-lstrings s' added p ne =
      unchanged (w.memory.lstrings p) (s'.lstrings p) (λ l e. added.extends.lstrings p l e)
        (λ e. added.extends.no_lstrings p ne e)

  kept-slots :
      (s' : State)
      → Added s k tmp ls ns valuestr s'
      → (a : Ptr) → a ≢ ns
      → s'.slots a ≡ w.memory.slots a
  kept-slots s' added a ne =
      unchanged (w.memory.slots a) (s'.slots a) (λ t e. added.extends.slots a t e)
        (λ e. added.extends.no_slots a ne e)

  -- The table is deleted, with its string.
  deleted :
      (depth : ℕ) (s' : State)
      → Added s k tmp ls ns valuestr s'
      → (w' : World) × (delete_at (release_at depth) q (leaving created q s') ≡ ok tt w')
        × Without (table_at q ∷ all_cells (thing (text ls ns) nil)) (leaving created q s') w'
  unfolding Holds cells has depth
  deleted depth s' added =
      let ts = thing (text ls ns) nil in
      let w₂ = leaving created q s' in
      let v : Value = record tmp { ref = 1; type = lt_string; v = ls } in
      let empty = λ (r : Key). (new_table-IsTable heap.first_size pos (omega (arith, small))).2 r in
      let one : values s'.table.map.buckets ≡ v ∷ [] =
        one_value s' k v added.quiet (λ r. added.reads_as r ∙ rw (empty r) refl) in
      let string : HasSlot w₂ ls ns = record {
        lock = 0;
        content = added.holds.content;
        here = added.holds.owns.here ∙ rw added.at_slot refl;
        there = rw added.at_slot at added.holds.owns.there;
      } in
      let held : AllHold w₂ (values s'.table.map.buckets) ts = rw one ((refl, refl, string), tt) in
      delete_at-Clears (release_at depth) q ts w₂ s'.table
        (clear_all-Without depth ts (omega arith)) (put_table_at created q s'.table) added.quiet
        held (refl, (refl, (refl, tt)))

  cleared :
      (s' : State) (w' : World)
      → Added s k tmp ls ns valuestr s'
      → Without (table_at q ∷ all_cells (thing (text ls ns) nil)) (leaving created q s') w'
      → SameMemory w w'
  unfolding cells has
  cleared s' w' added gone =
      let no_table = supply.table 1 w room in
      let no_lstring = supply.lstring 0 created created-room in
      let no_slot = supply.slot 0 created created-room in
      record {
        tables = λ p. elim (Bool-cases (p == q)) [
          | inl is ↦
              let e : p ≡ q = ground arith in ground (arith, gone.tables p, ap w.memory.tables e)
          | inr not ↦ ground (arith, gone.tables p)
        ];
        lstrings = λ p. elim (Bool-cases (p == ls)) [
          | inl is ↦
              let e : p ≡ ls = ground arith in
              ground (arith, gone.lstrings p, ap w.memory.lstrings e)
          | inr not ↦
              let ne : p ≢ ls = ground arith in
              ground (arith, gone.lstrings p, kept-lstrings s' added p ne)
        ];
        slots = λ a. elim (Bool-cases (a == ns)) [
          | inl is ↦
              let e : a ≡ ns = ground arith in ground (arith, gone.slots a, ap w.memory.slots e)
          | inr not ↦
              let ne : a ≢ ns = ground arith in
              ground (arith, gone.slots a, kept-slots s' added a ne)
        ];
      }

  -- Where new and malloc return unused addresses while there is room, and no null pointer for the
  -- table, where there is room and the first size is between 1 and 2^30 - 1, the program main.cpp
  -- returns 0 without a fault and leaves no table, and no lstring or slot of a value, behind: at
  -- every address stands what stood there before of these.
  pub main-SameMemory :
      (depth : ℕ)
      → heap.new_table_at w ≢ 0
      → (w' : World) × (main depth heap tmp w ≡ ok 0 w') × SameMemory w w'
  unfolding main create_table destroy_table
  main-SameMemory depth ne =
      let (s', run, added) = set_string-Added in
      let w₂ = leaving created q s' in
      let v : Value = record tmp { ref = 1; type = lt_string; v = ls } in
      let there : w₂.memory.tables q ≡ some s'.table = put_table_at created q s'.table in
      let entry : reads s' k ≡ some v = added.reads_as k ∙ rw ((same_key_iff k k).1 refl) refl in
      let (s'', get, same) =
        get_string-ok s' added.quiet k tmp v added.holds.slot added.holds.content entry refl
          added.holds.owns in
      let got =
        on-same w₂ q s'.table there (get_string k tmp) (some added.holds.slot) s'' get same in
      let here : created.memory.tables q ≡ some (new_table heap.first_size) =
        put_table_at w q (new_table heap.first_size) in
      let set : on q (set_string k valuestr ls ns tmp) created ≡ ok 0 w₂ = rw (here, run) refl in
      let some_table : (heap.new_table_at w == 0) ≡ false = ground arith in
      let (w', del, gone) = deleted depth s' added in
      (w', rw (set, got, some_table, del) refl, cleared s' w' added gone)
