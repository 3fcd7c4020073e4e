-- ===== src/World/Release.antt =====
-- table::_release and `delete` of lighttable.cpp where values hold other tables: _clear_value of
-- ltutil.cpp calls _release of each of them, which may delete it in turn.
use lighttable.Prelude.{ℕ, zero, suc, ◌+◌, ◌-◌, ◌^◌, none, List, [], ◌∷◌, ◌==◌, if◌then◌else◌}
use lighttable.Prelude.Word.{to_int}
use lighttable.Struct.{Value, lt_ud}
use lighttable.Lmap.{delete_without_data}
use lighttable.State.{Ptr, ok, fault, stack_overflow, Method, pure, ◌>>=◌, ◌>>◌, write}
use lighttable.Table.{clear_value}
use lighttable.Lifetime.{getref, set_table_ref}
use lighttable.World.{Action, on}

-- The memory of the table is freed.
unfoldable pub forget_table : Ptr → Action (Unit {0})
forget_table p w =
    ok tt (record w { memory = record w.memory { tables = write w.memory.tables p none } })

-- The members that `~table` resets, before it deletes the map.
unfoldable pub reset_members : Method (Unit {0})
reset_members s = ok tt (record s { table = record s.table { ref = 0; lock = 0; map_lock = 0 } })

-- The values that `_delete_without_data` hands to `_clear_value`.
unfoldable pub last_values : Method (List Value)
last_values s = ok (delete_without_data s.table.map.buckets) s

-- `_clear_value` for a value of the table at `p`. `again` is `_release`.
unfoldable pub clear_at : (Ptr → Action (Unit {0})) → Ptr → Value → Action (Unit {0})
clear_at again p v = if v.type == lt_ud then again v.v else on p (clear_value v)

unfoldable pub clear_all : (Ptr → Action (Unit {0})) → Ptr → List Value → Action (Unit {0})
unfolding clear_at
clear_all again p [] = pure tt
clear_all again p (v ∷ vs) = do clear_at again p v; clear_all again p vs

-- `delete` of the table at `p`, `~table` included.
unfoldable pub delete_at : (Ptr → Action (Unit {0})) → Ptr → Action (Unit {0})
delete_at again p = do
  on p reset_members
  vs ← on p last_values
  clear_all again p vs
  forget_table p

-- `_release`, on a stack with room for so many calls.
unfoldable pub release_at : ℕ → Ptr → Action (Unit {0})
release_at zero p = λ w. fault stack_overflow
release_at (suc depth) p = do
  ref ← on p getref
  let left = to_int (ref + 2 ^ 32 - 1)
  on p (set_table_ref left)
  if left == 0 then delete_at (release_at depth) p else pure tt
