-- ===== src/Lua/Tables.antt =====
-- The functions of ltlua.cpp on several tables, and the names under which Lua finds them. An index
-- from the top of the stack is the bit pattern of the negative `int`; a table of a Lua program,
-- its metatables and its closures belong to the parameters.
use lighttable.Prelude.{
  ℕ, zero, suc, ◌+◌, ◌-◌, ◌^◌, Bool, Option, none, some, List, [], ◌∷◌, ◌==◌, if◌then◌else◌,
}
use lighttable.Struct.{Bytes, Key, Value, lt_nil}
use lighttable.State.{Ptr, Table, State, wild_access, assert}
use lighttable.Table.{get_type}
use lighttable.World.{World, entering, leaving}
use lighttable.World.Life.{Heap, create_table, destroy_table}
use lighttable.Serialize.{Printf, serialize}
use lighttable.Lua.{
  LuaApi, Outcome, returns, raises, stops, Binding, give, ◌>>=◌, ◌>>◌, call, look, push, get_value,
  lua_tlightuserdata,
}
use lighttable.Lua.Pairs.{Upvalues, next_map}

abbrev pub lua_ttable : ℕ
lua_ttable = 5

-- The index `-n`.
abbrev pub from_top : ℕ → ℕ
from_top n = 2 ^ 32 - n

-- The functions that are handed to Lua.
pub data CFunction : Type 0 where
  c_create c_delete c_serialize c_size c_convert c_real_time c_ipairs c_pairs : CFunction
  c_get c_set c_ipairsaux : CFunction

abbrev pub Reg : Type 0
Reg = List (Bytes × CFunction)

-- What else is called of the API. `lua_next` is none where it returns 0 and has popped the key.
pub record LuaCalls (L : Type 0) : Type 0 where
  pub api : LuaApi L
  pub lua_pushvalue : ℕ → L → L
  pub lua_pop : ℕ → L → L
  pub lua_next : ℕ → L → Bool × L
  pub lua_pushcfunction : CFunction → L → L
  pub lual_getmetatable : Bytes → L → L
  pub lua_setmetatable : ℕ → L → L
  pub lual_newmetatable : Bytes → L → L
  pub lual_register : Option Bytes → Reg → L → L

abbrev pub ltmeta : Bytes
ltmeta = b'l' ∷ b't' ∷ b'm' ∷ b'e' ∷ b't' ∷ b'a' ∷ []

abbrev pub ltlib_f : Reg
ltlib_f =
    (b'c' ∷ b'r' ∷ b'e' ∷ b'a' ∷ b't' ∷ b'e' ∷ [], c_create)
    ∷ (b'd' ∷ b'e' ∷ b'l' ∷ b'e' ∷ b't' ∷ b'e' ∷ [], c_delete)
    ∷ (b's' ∷ b'e' ∷ b'r' ∷ b'i' ∷ b'a' ∷ b'l' ∷ b'i' ∷ b'z' ∷ b'e' ∷ [], c_serialize)
    ∷ (b's' ∷ b'i' ∷ b'z' ∷ b'e' ∷ [], c_size)
    ∷ (b'c' ∷ b'o' ∷ b'n' ∷ b'v' ∷ b'e' ∷ b'r' ∷ b't' ∷ [], c_convert)
    ∷ (b'r' ∷ b'e' ∷ b'a' ∷ b'l' ∷ b'_' ∷ b't' ∷ b'i' ∷ b'm' ∷ b'e' ∷ [], c_real_time)
    ∷ (b'i' ∷ b'p' ∷ b'a' ∷ b'i' ∷ b'r' ∷ b's' ∷ [], c_ipairs)
    ∷ (b'p' ∷ b'a' ∷ b'i' ∷ b'r' ∷ b's' ∷ [], c_pairs)
    ∷ []

abbrev pub ltlib_m : Reg
ltlib_m =
    (b'_' ∷ b'_' ∷ b'i' ∷ b'n' ∷ b'd' ∷ b'e' ∷ b'x' ∷ [], c_get)
    ∷ (b'_' ∷ b'_' ∷ b'n' ∷ b'e' ∷ b'w' ∷ b'i' ∷ b'n' ∷ b'd' ∷ b'e' ∷ b'x' ∷ [], c_set)
    ∷ []

module _ {L A : Type 0} where
  abbrev pub left : World → Ptr → Outcome State L A → Outcome World L A
  left w p (returns a l s) = returns a l (leaving w p s)
  left w p (raises l s) = raises l (leaving w p s)
  left w p (stops e) = stops e

  abbrev pub in_table : Option Table → Ptr → Binding State L A → Binding World L A
  in_table none p f l w = stops wild_access
  in_table (some t) p f l w = left w p (f l (entering w t))

  -- A function on the table at the address.
  abbrev pub within : Ptr → Binding State L A → Binding World L A
  within p f l w = in_table (w.memory.tables p) p f l w

module _ {L : Type 0} (calls : LuaCalls L) where
  -- `_create`.
  unfoldable pub create : Heap → Binding World L ℕ
  create heap = do
    t ← call (create_table heap)
    push (calls.api.lua_pushlightuserdata t)
    push (calls.lual_getmetatable ltmeta)
    push (calls.lua_setmetatable (from_top 2))
    give 1

  -- `_delete`, on a stack with room for `depth` calls.
  unfoldable pub delete : ℕ → Binding World L ℕ
  delete depth = do
    t ← look (λ l. calls.api.lua_touserdata l 1)
    call (destroy_table depth t)
    give 0

  -- `_serialize`, on a stack with room for `depth` calls.
  unfoldable pub lua_serialize : Printf → Value → ℕ → Binding World L ℕ
  lua_serialize printf tmp depth = do
    type ← look (λ l. calls.api.lua_type l 1)
    call (assert (type == lua_tlightuserdata))
    t ← look (λ l. calls.api.lua_touserdata l 1)
    call (serialize printf tmp depth t)
    give 0

  -- `_ipairs`.
  unfoldable pub ipairs : Binding World L ℕ
  ipairs = do
    push (calls.lua_pushcfunction c_ipairsaux)
    push (calls.lua_pushvalue 1)
    push (calls.api.lua_pushinteger 0)
    give 3

  -- The loop of `_next_array`, on the rounds that are left; it is never called.
  unfoldable pub next_array_from : Value → ℕ → Ptr → ℕ → Upvalues → Binding World L (Upvalues × ℕ)
  next_array_from tmp zero t i up = within t (next_map calls.api up tmp)
  next_array_from tmp (suc rounds) t i up = do
    tv ← within t (call (get_type (Key.index i) tmp))
    if tv.0 == lt_nil then next_array_from tmp rounds t (i + 1) up else (do
      push (calls.api.lua_pushinteger (i + 1))
      within t (get_value calls.api tv.0 tv.1)
      give (up, 2))

  unfoldable pub next_array : Value → Ptr → ℕ → Upvalues → Binding World L (Upvalues × ℕ)
  next_array tmp t pre up = next_array_from tmp (up.array_size - pre) t pre up

  -- `_real_time`, at a time of so many seconds and microseconds.
  unfoldable pub real_time : ℕ → ℕ → Binding World L ℕ
  real_time tv_sec tv_usec = do
    push (calls.api.lua_pushnumber (calls.api.to_double tv_sec))
    push (calls.api.lua_pushnumber (calls.api.to_double tv_usec))
    give 2

  unfoldable pub init_light_table : Binding World L ℕ
  init_light_table = do
    push (calls.lual_newmetatable ltmeta)
    push (calls.lual_register none ltlib_m)
    push (
        calls.lual_register
          (some (b'l' ∷ b'i' ∷ b'g' ∷ b'h' ∷ b't' ∷ b't' ∷ b'a' ∷ b'b' ∷ b'l' ∷ b'e' ∷ [])) ltlib_f)
    give 0
