-- ===== src/Tests/Trees.antt =====
-- serialize of lighttable.cpp at a table that holds the number 77 under the key 5 and, under the
-- key 6, a table that holds true under the key 5, and at a table that holds itself.
use lighttable.Prelude.{
  ℕ, ◌≡◌, refl, sym, ◌<◌, ◌++◌, true, replicate, none, some, [], ◌∷◌, arith, ◌==◌, if◌then◌else◌,
}
use mathlib.Core.Path.{subst}
use lighttable.Struct.{Value, TableKey, lt_number, lt_boolean, lt_ud}
use lighttable.Lmap.{numkey, Lmap, key_of, node_key, find, is_in_hash}
use lighttable.Lmap.Valid.{IsValid, view}
use lighttable.State.{Table, ok, fault, stack_overflow}
use lighttable.Table.Valid.{IsTable}
use lighttable.Keys.{filled}
use lighttable.Keys.Listed.{all_keys, chain_keys}
use lighttable.World.{World}
use lighttable.Serialize.{Printf, serialize, has_zero, get_serialed, result_line}
use lighttable.Serialize.Tree.{
  Tree, Entries, nil, entry, depth, depth_entries, shown_entries, IsTree, IsValue,
}
use lighttable.Serialize.Wrote.{IsClean, overwritten}
use lighttable.Serialize.Printed.{serialize-shown}
use lighttable.Serialize.Endless.{Onward, serialize-overflow}
use lighttable.Tests.Tables.{junk, seventy_seven}

abbrev printf : Printf
printf = record { show_int = λ i. b'i' ∷ []; show_double = λ d. b'd' ∷ [] }

printf-IsClean : IsClean printf
printf-IsClean = record { int = λ i. (refl, tt); double = λ d. (refl, tt) }

abbrev truth : Value
truth = record { ref = 1; type = lt_boolean; v = 1 }

abbrev pub link : Value
link = record { ref = 1; type = lt_ud; v = 2 }

abbrev pub inner_map : Lmap
inner_map = record {
  ref = 1;
  size = 1;
  buckets = (record { key = numkey 5; v = truth } ∷ []) ∷ [];
  index = 1;
}

abbrev outer_map : Lmap
outer_map = record {
  ref = 1;
  size = 1;
  buckets =
      (record { key = numkey 5; v = seventy_seven } ∷ record { key = numkey 6; v = link } ∷ [])
      ∷ [];
  index = 2;
}

abbrev pub resting : Lmap → Table
resting m = record { ref = 1; lock = 0; map_lock = 0; map = m }

abbrev two_tables : World
two_tables = record {
  memory = record {
    tables = λ p.
        if p == 1
        then some (resting outer_map)
        else (if p == 2 then some (resting inner_map) else none);
    lstrings = λ p. none;
    slots = λ p. none;
  };
  serialed = record { written = []; before = replicate 100 0 };
  printed = [];
}

pub inner_map-IsValid : IsValid inner_map
unfolding key_of node_key find is_in_hash lighttable.Util.hash
inner_map-IsValid = record {
  width = refl;
  pos = omega arith;
  small = omega arith;
  chains = ((record { valid = omega arith; stored = refl; held = refl }, refl, refl, tt), tt);
}

outer_map-IsValid : IsValid outer_map
unfolding key_of node_key find is_in_hash lighttable.Util.hash
outer_map-IsValid = record {
  width = refl;
  pos = omega arith;
  small = omega arith;
  chains = (
    (
      record { valid = omega arith; stored = refl; held = refl },
      refl,
      refl,
      (record { valid = omega arith; stored = refl; held = refl }, refl, refl, tt),
    ),
    tt,
  );
}

pub resting-IsTable : (m : Lmap) → IsValid m → m.ref ≡ 1 → IsTable (resting m)
resting-IsTable m valid held = record {
  map = valid;
  held = held;
  unlocked = refl;
  map_unlocked = refl;
}

abbrev numbered : ℕ → ℕ → TableKey
numbered type i = record { type = type; key = none; sz_idx = i }

abbrev inner_tree : Entries
inner_tree = entry (numbered lt_boolean 5) (Tree.boolean 1) nil

abbrev outer_tree : Entries
outer_tree =
    entry (numbered lt_number 5) (Tree.number 77)
      (entry (numbered lt_ud 6) (Tree.table inner_tree) nil)

two_tables-IsTree : IsTree printf two_tables.memory 1 outer_tree
unfolding IsValue all_keys chain_keys filled view find is_in_hash lighttable.Util.hash
two_tables-IsTree = (
  record {
    this = resting outer_map;
    there = refl;
    quiet = resting-IsTable outer_map outer_map-IsValid refl;
    small = omega arith;
  },
  (
    refl,
    omega arith,
    (
      record { value = seventy_seven; there = refl; value_type = refl; key_type = refl },
      refl,
      omega arith,
    ),
    (
      refl,
      omega arith,
      (
        record { value = link; there = refl; value_type = refl; key_type = refl },
        record {
          this = resting inner_map;
          there = refl;
          quiet = resting-IsTable inner_map inner_map-IsValid refl;
          small = omega arith;
        },
        (
          refl,
          omega arith,
          (record { value = truth; there = refl; value_type = refl; key_type = refl }, refl),
          tt,
        ),
      ),
      tt,
    ),
  ),
)

depth_two : depth_entries outer_tree < 2
unfolding depth
depth_two = omega arith

ends :
    has_zero (overwritten (replicate 100 0) (b'{' ∷ shown_entries printf outer_tree ++ b'}' ∷ []))
    ≡ true
unfolding has_zero lighttable.Serialize.Wrote.clipped shown_entries
ends = refl

serialize-shown_example :
    let buff =
      overwritten (replicate 100 0) (b'{' ∷ shown_entries printf outer_tree ++ b'}' ∷ []) in
    (w' : World) × (serialize printf junk 2 1 two_tables ≡ ok 0 w')
    × (w'.memory ≡ two_tables.memory)
    × (get_serialed w'.serialed ≡ buff)
    × (w'.printed ≡ result_line buff)
serialize-shown_example =
    serialize-shown printf printf-IsClean junk 1 outer_tree two_tables 2 two_tables-IsTree depth_two
      ends

-- At the address 2 a table that holds its own address under the key 6.
abbrev pub circle : World
circle = record two_tables {
  memory = record two_tables.memory {
    tables = λ p. if p == 2 then some (resting outer_map) else none;
  };
}

circle-Onward : Onward printf circle.memory (λ p. p ≡ 2) 2
unfolding depth IsValue all_keys chain_keys filled view find is_in_hash lighttable.Util.hash
circle-Onward = record {
  stands = record {
    this = resting outer_map;
    there = refl;
    quiet = resting-IsTable outer_map outer_map-IsValid refl;
    small = omega arith;
  };
  before = numbered lt_number 5 ∷ [];
  es = entry (numbered lt_number 5) (Tree.number 77) nil;
  flat = refl;
  values = (
    refl,
    omega arith,
    (
      record { value = seventy_seven; there = refl; value_type = refl; key_type = refl },
      refl,
      omega arith,
    ),
    tt,
  );
  key = numbered lt_ud 6;
  fits = omega arith;
  under = record { value = link; there = refl; value_type = refl; key_type = refl };
  next = refl;
  after = [];
  listed = refl;
}

serialize-overflow_example : serialize printf junk 100 2 circle ≡ fault stack_overflow
serialize-overflow_example =
    serialize-overflow printf printf-IsClean junk circle (λ p. p ≡ 2)
      (λ p e. subst (Onward printf circle.memory (λ q. q ≡ 2)) (sym e) circle-Onward) 2 100 refl
