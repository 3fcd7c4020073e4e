-- ===== src/Lua/Pairs.antt =====
-- pairs of ltlua.cpp: _pairs, _push_upvalues, _pairsaux and _next_map. The upvalues of
-- the closure that _pairs pushes are returned beside the stack, and each step returns them as it
-- leaves them.
-- The counts, `int`s of the source, are taken to have no sign. `_next_array` is never called.
use lighttable.Prelude.{
  ℕ, zero, suc, ◌+◌, Option, none, some, List, [], ◌∷◌, leb, ◌==◌, if◌then◌else◌, length, take,
}
use lighttable.Prelude.Word.{to_int}
use lighttable.Struct.{Key, name, index, Value, TableKey}
use lighttable.Struct
use lighttable.State.{State, wild_access}
use lighttable.Table.{get_type}
use lighttable.Keys.{size, keys}
use lighttable.Lua.{
  LuaApi, Binding, returns, stops, give, raise, ◌>>=◌, ◌>>◌, call, look, push, get_value,
  lua_tnumber, lua_tstring,
}

abbrev pub lua_tnil : ℕ
lua_tnil = 0

-- The upvalues of the closure; `keys` is empty where the fourth is nil.
pub record Upvalues : Type 0 where
  pub array_size : ℕ
  pub map_size : ℕ
  pub position : ℕ
  pub keys : List TableKey

-- What else `_pairs` calls of the API: `lua_newuserdata` with the `memcpy` of the keys into the
-- block, `lua_pushcclosure` of `_pairsaux`, which takes its upvalues off the stack, and
-- `lua_pushvalue`.
pub record PairsCalls (L : Type 0) : Type 0 where
  pub api : LuaApi L
  pub lua_newuserdata : List TableKey → L → L
  pub lua_pushcclosure : ℕ → L → L
  pub lua_pushvalue : ℕ → L → L

-- `_push_upvalues`, on the stack, and the upvalues that it makes.
module _ {L : Type 0} (calls : PairsCalls L) where
  abbrev api : LuaApi L
  api = calls.api

  unfoldable pub push_upvalues : List TableKey → ℕ → L → L
  push_upvalues ks size l =
      if size == 0
      then api.lua_pushnil (api.lua_pushinteger 0 (api.lua_pushinteger 0 (api.lua_pushinteger 0 l)))
      else calls.lua_newuserdata (take size ks)
          (api.lua_pushinteger 0 (api.lua_pushinteger size (api.lua_pushinteger 0 l)))

unfoldable pub upvalues : List TableKey → ℕ → Upvalues
upvalues ks size =
    if size == 0
    then record { array_size = 0; map_size = 0; position = 0; keys = [] }
    else record { array_size = 0; map_size = size; position = 0; keys = take size ks }

-- `keys[position]`.
abbrev pub entry_at : List TableKey → ℕ → Option TableKey
entry_at [] i = none
entry_at (k ∷ ks) zero = some k
entry_at (k ∷ ks) (suc i) = entry_at ks i

unfoldable pub pairs : {L : Type 0} → PairsCalls L → Binding State L (Upvalues × ℕ)
pairs calls = do
  cap ← call size
  ks ← call (keys cap)
  let n = to_int (length ks)
  push (push_upvalues calls ks n)
  push (calls.lua_pushcclosure 4)
  push (calls.lua_pushvalue 1)
  give (upvalues ks n, 2)

module _ {L : Type 0} (lua : LuaApi L) where
  abbrev pub found_entry : Option TableKey → Binding State L TableKey
  found_entry none l s = stops wild_access
  found_entry (some k) l s = returns k l s

  abbrev pub push_key : Key → L → L
  push_key (name text) = lua.lua_pushlstring text
  push_key (index num) = lua.lua_pushnumber (lua.to_double num)

  -- `_next_map`.
  unfoldable pub next_map : Upvalues → Value → Binding State L (Upvalues × ℕ)
  next_map up tmp =
      if up.map_size == 0
      then give (up, 0)
      else (if leb up.map_size up.position then give (record up { position = 0 }, 0) else (do
        k ← found_entry (entry_at up.keys up.position)
        let key = Struct.key_of k.key k.sz_idx
        push (push_key key)
        tv ← call (get_type key tmp)
        get_value lua tv.0 tv.1
        give (record up { position = up.position + 1 }, 2)))

  unfoldable pub pairsaux : Upvalues → Value → Binding State L (Upvalues × ℕ)
  pairsaux up tmp = do
    type ← look (λ l. lua.lua_type l 2)
    if type == lua_tnil
        then next_map up tmp
        else (if type == lua_tnumber
            then next_map up tmp
            else (if type == lua_tstring then next_map up tmp else raise))
