-- ===== src/Tests/Maps.antt =====
-- The theorems on lmap.cpp at the sample map, and runs of it.
use lighttable.Prelude.{◌≡◌, some, [], arith, if◌then◌else◌}
use lighttable.Struct.{Key, name, index}
use lighttable.Lmap.{new_lmap, insert_value, copy_map, delete_without_data}
use lighttable.Lmap.Stored.{same_key}
use lighttable.Lmap.Chain.{replaced}
use lighttable.Lmap.Valid.{IsValid, view}
use lighttable.Lmap.Insert.{insert_value-IsValid, view-insert_value}
use lighttable.Lmap.Delete.{copy_map-view}
use lighttable.Tests.Tables.{hi, sample_map, sample_map-IsValid, seventy_seven, pointer}

insert_value-IsValid_example : IsValid (insert_value sample_map (name hi) seventy_seven 0).2
insert_value-IsValid_example =
    insert_value-IsValid sample_map-IsValid (name hi) seventy_seven (omega arith) 0

view-insert_value_example : view (insert_value sample_map (index 5) pointer 0).2 (index 5) ≡ (
    if same_key (index 5) (index 5)
    then some (replaced (view sample_map (index 5)) pointer)
    else view sample_map (index 5))
view-insert_value_example =
    view-insert_value sample_map-IsValid (index 5) pointer (omega arith) 0 (index 5)

copy_map-view_example :
    IsValid (copy_map (new_lmap 2) sample_map).0
    × ((copy_map (new_lmap 2) sample_map).0.size ≡ 2)
    × ((q : Key) → view (copy_map (new_lmap 2) sample_map).0 q ≡ view sample_map q)
    × (delete_without_data (copy_map (new_lmap 2) sample_map).1.buckets ≡ [])
copy_map-view_example = copy_map-view sample_map-IsValid 2 (omega arith) (omega arith)
