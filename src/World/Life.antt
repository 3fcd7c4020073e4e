-- ===== src/World/Life.antt =====
-- `new table` and `delete t`. The addresses that `new` and `malloc` return are a parameter, and so
-- is the first size of a table.
use lighttable.Prelude.{ℕ, some, ◌==◌, if◌then◌else◌}
use lighttable.State.{Ptr, ok, pure, write}
use lighttable.Table.{new_table}
use lighttable.World.{World, Action}
use lighttable.World.Release.{delete_at, release_at}

pub record Heap : Type 0 where
  pub new_table_at : World → Ptr
  pub malloc_lstring : World → Ptr
  pub malloc_slot : World → Ptr
  pub first_size : ℕ

unfoldable pub create_table : Heap → Action Ptr
create_table heap w =
    let p = heap.new_table_at w in
    ok p (record w {
      memory = record w.memory {
        tables = write w.memory.tables p (some (new_table heap.first_size));
      };
    })

-- `delete` of a null pointer does nothing. The stack has room for `depth` calls of `_release`.
unfoldable pub destroy_table : ℕ → Ptr → Action (Unit {0})
destroy_table depth p = if p == 0 then pure tt else delete_at (release_at depth) p
