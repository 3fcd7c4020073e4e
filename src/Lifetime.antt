-- ===== src/Lifetime.antt =====
-- How long a table lives: getref, grab, _release and ~table of lighttable.cpp. After ~table the
-- table is freed; `_release` returns here whether it came to that.
pub mod Last
use lighttable.Prelude.{ℕ, ◌+◌, ◌-◌, ◌^◌, Bool, true, false, ◌==◌, if◌then◌else◌}
use lighttable.Prelude.Word.{to_int}
use lighttable.State.{State, ok, Method, pure, ◌>>=◌, ◌>>◌}
use lighttable.Table.{delete_map}

unfoldable pub getref : Method ℕ
getref s = ok s.table.ref s

unfoldable pub set_table_ref : ℕ → Method (Unit {0})
set_table_ref ref s = ok tt (record s { table = record s.table { ref = ref } })

unfoldable pub grab : Method (Unit {0})
grab = do ref ← getref; set_table_ref (to_int (ref + 1))

-- `~table`.
unfoldable pub delete_table : Method (Unit {0})
delete_table s =
    delete_map s.table.map (record s { table = record s.table { ref = 0; lock = 0; map_lock = 0 } })

unfoldable pub release : Method Bool
release = do
  ref ← getref
  set_table_ref (to_int (ref + 2 ^ 32 - 1))
  if to_int (ref + 2 ^ 32 - 1) == 0 then (do delete_table; pure true) else pure false
