-- ===== src/Programs/PoolTest.antt =====
-- The program memory_pool/test.cpp. What the output stream makes of an `int` is a parameter, and so
-- is what `new` returns.
use lighttable.Prelude.{ℕ, Option, none, some, ◌++◌, ◌∷◌, []}
use lighttable.Struct.{Bytes}
use lighttable.MemoryPool.{Ptr, Blocks, get_instance, get_len}

-- The code that it returns, with what it has printed; none where `new` returns NULL.
unfoldable pub main : (ℕ → Ptr) → (ℕ → Bytes) → Blocks → Option (ℕ × Bytes × Blocks)
main supply show_int h = elim (get_instance supply none h) [
  | none ↦ none
  | some (p, instance_, h') ↦ some (0, show_int (get_len p) ++ b'\n' ∷ [], h')
]
