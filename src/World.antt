-- ===== src/World.antt =====
-- Several tables with the strings that their values point to, and what the program writes to:
-- the buffer `serialed` of lighttable.h, and the standard output. `table *` is an address.
pub mod Reading
pub mod Values
pub mod Release
pub mod Cells
pub mod Owned
pub mod Freed
pub mod Life
pub mod Supply
pub mod Printing
use lighttable.Prelude.{ℕ, Option, none, some, List, [], ◌∷◌, ◌++◌}
use lighttable.Struct.{Bytes, StringSlot}
use lighttable.State.{Ptr, Lstring, Table, State, Run, RunOn, ok, fault, wild_access, Method, write}

pub record Memory : Type 0 where
  pub tables : Ptr → Option Table
  pub lstrings : Ptr → Option Lstring
  pub slots : Ptr → Option StringSlot

-- `struct serialize_buff`: what stands in `buff` before `cur`, and what `buff` held when `cur` was
-- last set to its start.
pub record SerializeBuff : Type 0 where
  pub written : Bytes
  pub before : Bytes

-- `printed` is what has been written to the standard output.
pub record World : Type 0 where
  pub memory : Memory
  pub serialed : SerializeBuff
  pub printed : Bytes

abbrev pub Action : Type 0 → Type 0
Action A = World → RunOn World A

abbrev pub stop : {A : Type 0} → Action A
stop w = fault wild_access

-- What a method of the table `t` works on, and the world that it leaves.
abbrev pub entering : World → Table → State
entering w t = record { table = t; lstrings = w.memory.lstrings; slots = w.memory.slots }

abbrev pub leaving : World → Ptr → State → World
leaving w p s = record w {
  memory = record {
    tables = write w.memory.tables p (some s.table);
    lstrings = s.lstrings;
    slots = s.slots;
  };
}

module _ {A : Type 0} where
  abbrev pub left : World → Ptr → Run A → RunOn World A
  left w p (ok a s) = ok a (leaving w p s)
  left w p (fault e) = fault e

  abbrev pub on_table : Option Table → Ptr → Method A → Action A
  on_table none p m w = fault wild_access
  on_table (some t) p m w = left w p (m (entering w t))

-- `p->m()`.
abbrev pub on : {A : Type 0} → Ptr → Method A → Action A
on p m w = on_table (w.memory.tables p) p m w
