-- ===== src/Lua/Visits.antt =====
-- What the steps of pairs in ltlua.cpp visit.
use lighttable.Prelude.{ℕ, zero, suc, ◌-◌, ◌*◌, ◌≡◌, some, List, [], ◌∷◌, length, take, ◌⊎◌}
use lighttable.Keys.Listed.{all_keys}
use lighttable.Struct.{Key, name, index, Value, TableKey}
use lighttable.State.{State}
use lighttable.Table.Valid.{reads}
use lighttable.Table.Read.{Kind, tag, as_read}
use lighttable.Keys.Found.{All, listed_key}
use lighttable.Lua.{LuaApi, Binding, give, push, ◌>>=◌, ◌>>◌, lua_tnumber, lua_tstring}
use lighttable.Lua.Index.{pushed}
use lighttable.Lua.Pairs.{Upvalues, PairsCalls, push_key, push_upvalues, pairsaux, lua_tnil}

-- What stands under a listed key: a value of one of the three kinds.
pub record Entry (s : State) (k : TableKey) : Type 0 where
  pub value : Value
  pub kind : Kind
  pub there : reads s (listed_key k) ≡ some value
  pub type : value.type ≡ tag kind

-- The Lua type of a key.
abbrev pub key_type : Key → ℕ
key_type (name text) = lua_tstring
key_type (index num) = lua_tnumber

-- What the loop `for k, v in pairs(t)` of Lua does: it calls the closure with the table and the
-- control variable, which is nil at first, since _pairs returns two values, and then the first
-- result of the call before. `begin` and `again` make the stack of a call from that of _pairs and of
-- the call before.
pub record ForLoop {L : Type 0} (calls : PairsCalls L) : Type 0 where
  pub begin : L → L
  pub again : L → L
  pub begin_nil :
      (l : L)
      → calls.api.lua_type (begin (calls.lua_pushvalue 1 (calls.lua_pushcclosure 4 l))) 2 ≡ lua_tnil
  pub again_key :
      (k : Key) (kind : Kind) (w : ℕ) (l : L)
      → calls.api.lua_type (again (pushed calls.api kind w (push_key calls.api k l))) 2 ≡ key_type k

module _ {L : Type 0} (calls : PairsCalls L) (loop : ForLoop calls) where
  -- As many steps, each from the upvalues that the one before left.
  unfoldable pub visits : ℕ → Upvalues → Value → Binding State L Upvalues
  visits zero up tmp = give up
  visits (suc n) up tmp = pairsaux calls.api up tmp >>= λ r. push loop.again >> visits n r.0 tmp

module _ {L : Type 0} (calls : PairsCalls L) (loop : ForLoop calls) (s : State) where
  abbrev lua : LuaApi L
  lua = calls.api

  -- The key and the value are pushed.
  abbrev pub push_entry : (k : TableKey) → Entry s k → L → L
  push_entry k e l = pushed lua e.kind (as_read e.kind e.value.v) (push_key lua (listed_key k) l)

  -- The steps, each of which the loop takes up.
  abbrev pub push_entries : (ks : List TableKey) → All (Entry s) ks → L → L
  push_entries [] es l = l
  push_entries (k ∷ ks) (e, es) l = push_entries ks es (loop.again (push_entry k e l))

  -- The control variable is nil, a number or a string.
  HasControl : L → Type 0
  HasControl l =
      (lua.lua_type l 2 ≡ lua_tnil)
      ⊎ ((lua.lua_type l 2 ≡ lua_tnumber) ⊎ (lua.lua_type l 2 ≡ lua_tstring))

-- The entries that `pairs` lists.
abbrev pub listed : State → List TableKey
listed s = take (s.table.map.size * 7 - 1) (all_keys s.table.map.buckets)

-- The upvalues of a closure over these keys that has taken so many steps.
abbrev pub after : List TableKey → ℕ → Upvalues
after ks steps = record { array_size = 0; map_size = length ks; position = steps; keys = ks }

-- The stack that `pairs` leaves: the closure over the listed keys, and the table.
abbrev pub left : {L : Type 0} → PairsCalls L → State → L → L
left calls s l =
    calls.lua_pushvalue 1
      (calls.lua_pushcclosure 4 (push_upvalues calls (listed s) (length (listed s)) l))
