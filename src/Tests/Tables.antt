-- ===== src/Tests/Tables.antt =====
-- The theorems on class table of lighttable.cpp, at a table with one slot that holds the number
-- 77 under the key 5 and the text "hi" under the key 6.
use lighttable.Prelude.{
  ◌≡◌, ◌≢◌, refl, none, some, [], ◌∷◌, arith, inl, length, take, if◌then◌else◌, ◌==◌,
}
use lighttable.Prelude.Word.{to_size}
use lighttable.Struct.{Bytes, name, index, StringSlot, Value, lt_number, lt_string}
use lighttable.Util.{new_string, cmp_string, same_bytes}
use lighttable.Lmap.{numkey, Lmap, key_of, node_key, find, is_in_hash}
use lighttable.Lmap.Chain.{type_of}
use lighttable.Lmap.Valid.{IsValid, view}
use lighttable.State.{Ptr, State, ok, ◌>>=◌, ◌>>◌}
use lighttable.Table.{insert_table}
use lighttable.Table.Valid.{IsTable, reads}
use lighttable.Table.Read.{number, boolean, ud, get, tag, as_read, typed, found, get-typed}
use lighttable.Table.Insert.{Inserted, insert_table-Inserted}
use lighttable.Table.Write.{put, built, outcome, Sets, put-Sets, get-put, put-overwrites}
use lighttable.Keys.{keys, size}
use lighttable.Keys.Listed.{all_keys, keys-size}
use lighttable.Strings.{get_string, set_string}
use lighttable.Strings.Owned.{Owns}
use lighttable.Strings.Dangling.{get_string-dangles}
use lighttable.Lmap.Count.{entries}
use Prim.Native.Nat.{min}

abbrev pub hi : Bytes
hi = b'h' ∷ b'i' ∷ []

abbrev pub seventy_seven : Value
seventy_seven = record { ref = 1; type = lt_number; v = 77 }

abbrev pub pointer : Value
pointer = record { ref = 1; type = lt_string; v = 100 }

abbrev pub sample_map : Lmap
sample_map = record {
  ref = 1;
  size = 1;
  buckets =
      (record { key = numkey 5; v = seventy_seven } ∷ record { key = numkey 6; v = pointer } ∷ [])
      ∷ [];
  index = 2;
}

abbrev pub slot_hi : StringSlot
slot_hi = record { ref = 1; sz = 2; buf = b'h' ∷ b'i' ∷ 0 ∷ [] }

abbrev pub sample : State
sample = record {
  table = record { ref = 1; lock = 0; map_lock = 0; map = sample_map };
  lstrings = λ p. if p == 100 then some (record { lock = 0; slot = 200 }) else none;
  slots = λ p. if p == 200 then some slot_hi else none;
}

-- What the stack may hold.
abbrev pub junk : Value
junk = record { ref = 9; type = 8; v = 0x1234_5678_9abc }

pub sample_map-IsValid : IsValid sample_map
unfolding key_of node_key find is_in_hash lighttable.Util.hash
sample_map-IsValid = record {
  width = refl;
  pos = omega arith;
  small = omega arith;
  chains = (
    (
      record { valid = omega arith; stored = refl; held = refl },
      refl,
      refl,
      (record { valid = omega arith; stored = refl; held = refl }, refl, refl, tt),
    ),
    tt,
  );
}

pub sample-IsTable : IsTable sample.table
sample-IsTable = record {
  map = sample_map-IsValid;
  held = refl;
  unlocked = refl;
  map_unlocked = refl;
}

five : reads sample (index 5) ≡ some seventy_seven
unfolding view find is_in_hash lighttable.Util.hash
five = refl

six : reads sample (index 6) ≡ some pointer
unfolding view find is_in_hash lighttable.Util.hash
six = refl

pub seven : reads sample (index 7) ≡ none
unfolding view find is_in_hash lighttable.Util.hash
seven = refl

pub hi-Owns : Owns sample 100 200 slot_hi
hi-Owns = record { here = refl; there = refl; once = refl }

insert_table-Inserted_example :
    (s' : State) × (insert_table (name hi) junk sample ≡ ok (type_of (reads sample (name hi))) s')
    × Inserted sample (name hi) junk s'
insert_table-Inserted_example =
    insert_table-Inserted sample (name hi) junk sample-IsTable (omega arith) (omega arith)

put-Sets_example :
    Sets
      (put boolean (index 5) 1 junk)
      sample
      (index 5)
      (outcome (reads sample (index 5)) (tag boolean))
      (built boolean 1 junk)
put-Sets_example =
    put-Sets sample sample-IsTable (index 5) (omega arith) (omega arith) boolean 1 junk

get-put_example :
    (s' : State) × ((put boolean (index 7) 1 junk >> get boolean (index 7) junk) sample ≡ ok 1 s')
    × Inserted sample (index 7) (built boolean 1 junk) s'
get-put_example =
    get-put sample sample-IsTable (index 7) (omega arith) (omega arith) boolean 1 junk junk
      (inl seven)

put-overwrites_example :
    (s' : State) × (put ud (index 5) 1000 junk sample ≡ ok 1 s')
    × (reads s' (index 5) ≡ some (record { ref = 1; type = lt_number; v = 1000 }))
put-overwrites_example =
    put-overwrites sample sample-IsTable (index 5) (omega arith) (omega arith) ud 1000 junk
      seventy_seven five (omega arith) (omega arith)

get-typed_example :
    get number (index 5) junk sample
    ≡ typed sample (found (reads sample (index 5)) junk) lt_number (as_read number)
get-typed_example = get-typed sample sample-IsTable (index 5) junk number

keys-size_example :
    ((size >>= keys) sample ≡ ok (take 6 (all_keys sample_map.buckets)) sample)
    × (length (take 6 (all_keys sample_map.buckets)) ≡ min 6 (entries sample_map.buckets))
keys-size_example = keys-size sample sample-IsTable (omega arith)

get_string-dangles_example :
    (s₁ : State) × (get_string (index 6) junk sample ≡ ok (some 200) s₁)
    × (s₁.slots 200 ≡ some slot_hi)
    × (s₂ : State) × (set_string (index 6) hi 101 201 junk s₁ ≡ ok 0 s₂)
    × (s₂.slots 200 ≡ none)
    × (s₃ : State) × (b : Ptr) × (get_string (index 6) junk s₂ ≡ ok (some b) s₃)
    × (b ≢ 200)
    × (u : StringSlot) × (s₃.slots b ≡ some u)
    × (take (to_size u.sz) u.buf ≡ hi)
get_string-dangles_example =
    get_string-dangles sample (index 6) junk pointer 200 101 201 slot_hi hi sample-IsTable six refl
      hi-Owns refl (omega arith)
