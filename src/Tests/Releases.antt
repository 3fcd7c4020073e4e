-- ===== src/Tests/Releases.antt =====
-- _release of lighttable.cpp at a table that holds a text under the key 5 and, under the key 6, a
-- table that holds true.
use lighttable.Prelude.{◌≡◌, refl, ◌<◌, ◌==◌, if◌then◌else◌, none, some, [], ◌∷◌, arith}
use lighttable.Lmap.{numkey, Lmap, key_of, node_key, find, is_in_hash}
use lighttable.Lmap.Valid.{IsValid}
use lighttable.Lmap.Delete.{chain_values, values}
use lighttable.State.{ok}
use lighttable.World.{World}
use lighttable.World.Release.{release_at}
use lighttable.World.Cells.{table_at, has, Distinct, Without}
use lighttable.World.Owned.{
  Things, plain, text, table, nil, thing, cells, all_cells, depth, depth_all, Holds, Keeps,
}
use lighttable.World.Freed.{release_at-Without}
use lighttable.Tests.Tables.{slot_hi, pointer}
use lighttable.Tests.Trees.{inner_map, inner_map-IsValid, link, resting, resting-IsTable}

abbrev family_map : Lmap
family_map = record {
  ref = 1;
  size = 1;
  buckets =
      (record { key = numkey 5; v = pointer } ∷ record { key = numkey 6; v = link } ∷ []) ∷ [];
  index = 2;
}

family_map-IsValid : IsValid family_map
unfolding key_of node_key find is_in_hash lighttable.Util.hash
family_map-IsValid = record {
  width = refl;
  pos = omega arith;
  small = omega arith;
  chains = (
    (
      record { valid = omega arith; stored = refl; held = refl },
      refl,
      refl,
      (record { valid = omega arith; stored = refl; held = refl }, refl, refl, tt),
    ),
    tt,
  );
}

abbrev family : World
family = record {
  memory = record {
    tables = λ p.
        if p == 1
        then some (resting family_map)
        else (if p == 2 then some (resting inner_map) else none);
    lstrings = λ p. if p == 100 then some (record { lock = 0; slot = 200 }) else none;
    slots = λ a. if a == 200 then some slot_hi else none;
  };
  serialed = record { written = []; before = [] };
  printed = [];
}

abbrev held : Things
held = thing (text 100 200) (thing (table 2 (thing plain nil)) nil)

family-Keeps : Keeps family 1 held
unfolding Holds chain_values values
family-Keeps = (
  record {
    this = resting family_map;
    there = refl;
    quiet = resting-IsTable family_map family_map-IsValid refl;
    last = refl;
  },
  (
    (refl, refl, record { lock = 0; content = slot_hi; here = refl; there = refl }),
    (
      (
        refl,
        refl,
        record {
          this = resting inner_map;
          there = refl;
          quiet = resting-IsTable inner_map inner_map-IsValid refl;
          last = refl;
        },
        ((omega arith, omega arith), tt),
      ),
      tt,
    ),
  ),
)

held-Distinct : Distinct (table_at 1 ∷ all_cells held)
unfolding cells has
held-Distinct = (refl, (refl, (refl, (refl, tt))))

held-depth : depth_all held < 2
unfolding depth
held-depth = omega arith

release_at-Without_example :
    (w' : World) × (release_at 2 1 family ≡ ok tt w')
    × Without (table_at 1 ∷ all_cells held) family w'
release_at-Without_example =
    release_at-Without 2 1 held family family-Keeps held-Distinct held-depth
