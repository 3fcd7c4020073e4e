-- ===== src/Lifetime/Last.antt =====
-- What the references to a table keep alive, and what goes with the last of them.
use lighttable.Prelude.{◌+◌, ◌-◌, ◌^◌, ◌≡◌, refl, ◌≢◌, ◌<◌, true, false, none, ◌==◌, arith}
use lighttable.Prelude.Word.{to_int}
use lighttable.Struct.{StringSlot, Value, lt_string}
use lighttable.Lmap.Delete.{values, delete-all}
use lighttable.State.{Ptr, State, ok, pure, ◌>>◌, write}
use lighttable.Table.{clear_value, clear_values, delete_map, store_lstring}
use lighttable.Table.Valid.{IsTable}
use lighttable.Strings.Owned.{Owns, load_lstring-ok, free_slot-ok, write_self}
use lighttable.Lifetime.{getref, set_table_ref, grab, delete_table, release}

-- On a table with at least one reference and fewer than 2^31 - 1, grab and then _release leave
-- everything as it was and delete nothing.
pub release-grab :
    (s : State) → 0 < s.table.ref → s.table.ref + 1 < 2 ^ 31 → (grab >> release) s ≡ ok false s
unfolding grab release getref set_table_ref
release-grab s pos small =
    let up : to_int (s.table.ref + 1) ≡ s.table.ref + 1 = omega arith in
    let down : to_int (s.table.ref + 1 + 2 ^ 32 - 1) ≡ s.table.ref = omega arith in
    let more : (s.table.ref == 0) ≡ false = ground arith in rw (up, down, more) refl

-- Where no method works on a table to which one reference is left, _release deletes it and hands
-- each of its values to _clear_value, once and in the order of the chains.
pub release-last :
    (s : State)
    → IsTable s.table
    → s.table.ref ≡ 1
    → release s
      ≡ (clear_values (values s.table.map.buckets) >> pure true)
          (record s { table = record s.table { ref = 0; lock = 0; map_lock = 0 } })
unfolding release getref set_table_ref delete_table delete_map
release-last s quiet last =
    let zero_left : to_int (s.table.ref + 2 ^ 32 - 1) ≡ 0 = ground arith in
    rw (zero_left, delete-all quiet.map) refl

-- What is freed with a string value.
pub record Freed (s : State) (p a : Ptr) (s' : State) : Type 0 where
  pub lstring : s'.lstrings p ≡ none
  pub slot : s'.slots a ≡ none
  pub table : s'.table ≡ s.table
  pub others : (q b : Ptr) (u : StringSlot) → q ≢ p → b ≢ a → Owns s q b u → Owns s' q b u
  pub lstrings_gone : (q : Ptr) → s.lstrings q ≡ none → s'.lstrings q ≡ none
  pub slots_gone : (b : Ptr) → s.slots b ≡ none → s'.slots b ≡ none

-- _clear_value of a string value whose lstring and slot belong to nothing else frees both; the
-- table and every string that shares neither stay as they were.
pub clear_value-string :
    (s : State) (v : Value) (a : Ptr) (t : StringSlot)
    → v.type ≡ lt_string
    → Owns s v.v a t
    → (s' : State) × (clear_value v s ≡ ok tt s') × Freed s v.v a s'
unfolding clear_value store_lstring
clear_value-string s v a t string owns =
    let is : (v.type == lt_string) ≡ true = ground arith in
    (
      record s { slots = write s.slots a none; lstrings = write s.lstrings v.v none },
      rw (is, load_lstring-ok v.v s owns.here, free_slot-ok a s owns.there) refl,
      record {
        lstring = write_self s.lstrings v.v none;
        slot = write_self s.slots a none;
        table = refl;
        others = λ q b u q-ne b-ne other. record {
          here = ground (arith, other.here);
          there = ground (arith, other.there);
          once = other.once;
        };
        lstrings_gone = λ q e. ground arith;
        slots_gone = λ b e. ground arith;
      },
    )
