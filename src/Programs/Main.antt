-- ===== src/Programs/Main.antt =====
-- The program main.cpp.
use lighttable.Prelude.{ℕ, [], ◌∷◌}
use lighttable.Struct.{Bytes, Key, Value}
use lighttable.State.{Ptr, pure, ◌>>=◌, ◌>>◌}
use lighttable.Strings.{set_string, get_string}
use lighttable.World.{Action, on}
use lighttable.World.Life.{Heap, create_table, destroy_table}

-- The text "str" with its zero byte: the size that is passed is 4.
abbrev pub str : Bytes
str = b's' ∷ b't' ∷ b'r' ∷ 0 ∷ []

abbrev pub valuestr : Bytes
valuestr = b'v' ∷ b'a' ∷ b'l' ∷ b'u' ∷ b'e' ∷ b's' ∷ b't' ∷ b'r' ∷ []

-- `t->set_string`, with the addresses that `malloc` returns.
abbrev pub set_string_at : Heap → Ptr → Key → Bytes → Value → Action ℕ
set_string_at heap t key text tmp w =
    on t (set_string key text (heap.malloc_lstring w) (heap.malloc_slot w) tmp) w

-- On a stack with room for `depth` calls of `_release`.
unfoldable pub main : ℕ → Heap → Value → Action ℕ
main depth heap tmp = do
  t ← create_table heap
  set_string_at heap t (Key.name str) valuestr tmp
  on t (get_string (Key.name str) tmp)
  destroy_table depth t
  pure 0
