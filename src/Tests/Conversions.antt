-- ===== src/Tests/Conversions.antt =====
-- _convert of ltlua.cpp on the Lua table { 42, x = { [5] = "hi" } }, on a stack of
-- lua-5.1.4/src/lapi.c.
use lighttable.Prelude.{
  ℕ, suc, ◌+◌, ◌≡◌, refl, ◌<◌, Option, none, some, [], ◌∷◌, arith, ◌==◌, if◌then◌else◌,
}
use lighttable.Struct.{Bytes, name, index}
use lighttable.Lmap.Stored.{same_key}
use lighttable.Table.Read.{number}
use lighttable.State.{Ptr}
use lighttable.World.{World}
use lighttable.Dictionary.{plain, text}
use lighttable.Lua.{returns}
use lighttable.Lua.Tables.{LuaCalls}
use lighttable.Lua.Convert.{convert}
use lighttable.Lua.Convert.Tree.{
  Pairs, content, table, nil, pair, depth, depth_pairs, AreConvertible, Gives,
}
use lighttable.Lua.Convert.Looped.{total, total_pairs, Made}
use lighttable.Lua.Convert.Made.{convert-IsConverted}
use lighttable.LuaStack.{
  TValue, Host, Stack, stack_api, index2adr, lua_type, lua_tointeger, lua_tonumber, lua_tolstring,
  lua_pushvalue, lua_settop, lua_next, lua_pop,
}
use lighttable.Tests.Tables.{hi, junk}
use lighttable.Tests.Supplies.{tower, Above, tower-Supply, occupied}

abbrev x : Bytes
x = b'x' ∷ []

abbrev luah_next : ℕ → TValue → Option (TValue × TValue)
luah_next t TValue.nil =
    if t == 1
    then some (TValue.number 1, TValue.number 42)
    else some (TValue.number 5, TValue.string hi)
luah_next t (TValue.number n) = if t == 1 then some (TValue.string x, TValue.table 2) else none
luah_next t o = none

abbrev host : Host
host = record {
  number2integer = λ n. n;
  integer2number = λ n. n;
  parse = λ text. none;
  print = λ n. [];
  luah_next = luah_next;
}

-- Metatables and registration play no part.
abbrev calls : LuaCalls Stack
calls = record {
  api = stack_api host;
  lua_pushvalue = lua_pushvalue;
  lua_pop = lua_pop;
  lua_next = lua_next host;
  lua_pushcfunction = λ f l. l;
  lual_getmetatable = λ b l. l;
  lua_setmetatable = λ n l. l;
  lual_newmetatable = λ b l. l;
  lual_register = λ b r l. l;
}

abbrev inner : Pairs
inner = pair (index 5) (content (text hi)) nil

abbrev outer : Pairs
outer = pair (index 1) (content (plain number 42)) (pair (name x) (table inner) nil)

abbrev arguments : Stack
arguments = TValue.table 1 ∷ []

-- The stack below the conversion of the inner table.
abbrev below : Stack
below = TValue.table 1 ∷ TValue.string x ∷ TValue.table 2 ∷ TValue.string x ∷ TValue.table 2 ∷ []

abbrev with_five : Stack
with_five =
    TValue.table 1
    ∷ TValue.string x
    ∷ TValue.table 2
    ∷ TValue.string x
    ∷ TValue.table 2
    ∷ TValue.number 5
    ∷ []

abbrev with_hi : Stack
with_hi =
    TValue.table 1
    ∷ TValue.string x
    ∷ TValue.table 2
    ∷ TValue.string x
    ∷ TValue.table 2
    ∷ TValue.number 5
    ∷ TValue.string hi
    ∷ []

inner-Gives : Gives calls (calls.api.lua_pushnil below) inner below
unfolding Gives lua_next lua_type lua_tonumber lua_tointeger lua_tolstring lua_pushvalue lua_settop
    index2adr
inner-Gives = (with_hi, with_five, refl, (refl, refl), ((refl, refl), refl), refl)

outer-Gives : Gives calls (calls.api.lua_pushnil arguments) outer arguments
unfolding Gives lua_next lua_type lua_tonumber lua_tointeger lua_tolstring lua_pushvalue lua_settop
    index2adr
outer-Gives = (
  TValue.table 1 ∷ TValue.number 1 ∷ TValue.number 42 ∷ [],
  TValue.table 1 ∷ TValue.number 1 ∷ [],
  refl,
  (refl, refl),
  ((refl, refl), refl),
  (
    TValue.table 1 ∷ TValue.string x ∷ TValue.table 2 ∷ [],
    TValue.table 1 ∷ TValue.string x ∷ [],
    refl,
    (refl, refl),
    (refl, below, inner-Gives, refl),
    refl,
  ),
)

outer-AreConvertible : AreConvertible 10 29 outer
unfolding AreConvertible same_key
outer-AreConvertible = (
  omega arith,
  (refl, tt),
  tt,
  (omega arith, tt, ((omega arith, omega arith), (omega arith, tt, omega arith, tt)), tt),
)

abbrev nothing : World
nothing = record {
  memory = record { tables = λ p. none; lstrings = λ p. none; slots = λ p. none };
  serialed = record { written = []; before = [] };
  printed = [];
}

nothing-Above : Above 7 nothing
unfolding occupied
nothing-Above = (0, omega arith, λ p le. refl)

outer-depth : depth_pairs outer < 2
unfolding depth
outer-depth = omega arith

nothing-room : Above (suc (total_pairs outer + 2)) nothing
unfolding total
nothing-room = nothing-Above

convert-IsConverted_example :
    (q : Ptr) × (w' : World) × (convert calls tower junk 2 10 arguments nothing
      ≡ returns 1 (TValue.table 1 ∷ TValue.light_userdata q ∷ []) w')
    × Made Above nothing q outer 2 w'
convert-IsConverted_example =
    convert-IsConverted calls tower Above tower-Supply junk 2 10 2 outer nothing arguments arguments
      (omega arith) nothing-room (omega arith, omega arith) outer-AreConvertible outer-Gives
      outer-depth
