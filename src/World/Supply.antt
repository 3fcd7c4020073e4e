-- ===== src/World/Supply.antt =====
-- What the conversion relies on of `new` and `malloc`: while there is room, the addresses that they
-- return are not in use.
use lighttable.Prelude.{ℕ, suc, ◌≡◌, ◌≢◌, none}
use lighttable.State.{Ptr}
use lighttable.World.{World}
use lighttable.World.Life.{Heap}

-- Nothing is in use that was not, but what is returned in the first world.
pub record Uses (heap : Heap) (w w' : World) : Type 0 where
  pub tables :
      (p : Ptr) → p ≢ heap.new_table_at w → w.memory.tables p ≡ none → w'.memory.tables p ≡ none
  pub lstrings :
      (p : Ptr)
      → p ≢ heap.malloc_lstring w
      → w.memory.lstrings p ≡ none
      → w'.memory.lstrings p ≡ none
  pub slots :
      (p : Ptr) → p ≢ heap.malloc_slot w → w.memory.slots p ≡ none → w'.memory.slots p ≡ none

-- `Room n w`: in the world there is room for `n` more of each.
pub record Supply (heap : Heap) (Room : ℕ → World → Type 0) : Type 0 where
  pub table : (n : ℕ) (w : World) → Room (suc n) w → w.memory.tables (heap.new_table_at w) ≡ none
  pub lstring :
      (n : ℕ) (w : World) → Room (suc n) w → w.memory.lstrings (heap.malloc_lstring w) ≡ none
  pub slot : (n : ℕ) (w : World) → Room (suc n) w → w.memory.slots (heap.malloc_slot w) ≡ none
  pub less : (n : ℕ) (w w' : World) → Room (suc n) w → Uses heap w w' → Room n w'
