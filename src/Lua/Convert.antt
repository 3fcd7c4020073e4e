-- ===== src/Lua/Convert.antt =====
-- The conversion of a Lua table into tables of this library: do_convert and _convert of ltlua.cpp.
pub mod Tree
pub mod Kept
pub mod Step
pub mod Looped
pub mod Made
use lighttable.Prelude.{ℕ, zero, suc, Bool, ◌==◌, if◌then◌else◌}
use lighttable.Struct.{Value}
use lighttable.State.{Ptr, stack_overflow, out_of_rounds}
use lighttable.Table.{set_ud}
use lighttable.World.{World, on}
use lighttable.World.Life.{Heap, create_table}
use lighttable.Lua.{
  returns, stops, Binding, give, ◌>>=◌, ◌>>◌, call, look, push, get_key, set_value,
}
use lighttable.Lua.Tables.{LuaCalls, lua_ttable, from_top, within}

module _ {L : Type 0} (calls : LuaCalls L) (heap : Heap) (tmp : Value) where
  -- `do_convert`. The key of a pair lies under its copy at the top, the value under both.
  -- A pair whose value is a table is converted by `again`.
  unfoldable pub convert_pair : (Binding World L Ptr) → Ptr → Binding World L (Unit {0})
  convert_pair again t = do
    push (calls.lua_pushvalue (from_top 2))
    value_type ← look (λ l. calls.api.lua_type l (from_top 2))
    key ← within t (get_key calls.api (from_top 1))
    if value_type == lua_ttable
        then (do
          push (calls.lua_pushvalue (from_top 2))
          sub ← again
          call (on t (set_ud key sub tmp))
          push (calls.lua_pop 3))
        else (do
          ls ← (λ l w. returns (heap.malloc_lstring w) l w)
          ns ← (λ l w. returns (heap.malloc_slot w) l w)
          within t (set_value calls.api key (from_top 2) ls ns tmp)
          push (calls.lua_pop 2))

  -- `lua_next(L, -2)`: whether there is another pair.
  abbrev pub next_pair : Binding World L Bool
  next_pair l w = returns (calls.lua_next (from_top 2) l).0 (calls.lua_next (from_top 2) l).1 w

  -- The loop, on the rounds that are left.
  unfoldable pub convert_pairs : ℕ → Binding World L Ptr → Ptr → Binding World L (Unit {0})
  unfolding convert_pair
  convert_pairs zero again t = λ l w. stops out_of_rounds
  convert_pairs (suc rounds) again t = do
    more ← next_pair
    if more then (do convert_pair again t; convert_pairs rounds again t) else give tt

  unfoldable pub do_convert : ℕ → ℕ → Binding World L Ptr
  do_convert zero rounds = λ l w. stops stack_overflow
  do_convert (suc depth) rounds = do
    t ← call (create_table heap)
    push calls.api.lua_pushnil
    convert_pairs rounds (do_convert depth rounds) t
    give t

  -- `_convert`; the times that it takes are not used.
  unfoldable pub convert : ℕ → ℕ → Binding World L ℕ
  convert depth rounds = do
    t ← do_convert depth rounds
    push (calls.api.lua_pushlightuserdata t)
    give 1
