-- ===== src/LuaStack.antt =====
-- The functions of Lua, lua-5.1.4/src/lapi.c and lauxlib.c, through which ltlua.cpp reads and
-- changes the stack: an instance of the interface that the binding takes as a parameter. The stack
-- of the running function is the list from `base` up to `top`. The room above it, which `api_check`
-- tests in a debugging build only, the collector and the pseudo-indices are left out.

pub mod Laws
use lighttable.Prelude.{
  ℕ, zero, suc, ◌+◌, ◌-◌, ◌^◌, Bool, true, false, Option, none, some, List, [], ◌∷◌, ◌++◌, ltb, leb,
  ◌==◌, not, ◌&&◌, if◌then◌else◌, length, take, replicate,
}
use lighttable.Prelude.Word.{to_int}
use lighttable.Struct.{Bytes}
use lighttable.Lua.{LuaApi, lua_tboolean, lua_tlightuserdata, lua_tnumber, lua_tstring}
use lighttable.Lua.Pairs.{lua_tnil}
use lighttable.Lua.Tables.{lua_ttable}

-- A `TValue`: a number is the bits of its double, a table and a full userdata an address.
pub data TValue : Type 0 where
  nil : TValue
  boolean : ℕ → TValue
  light_userdata : ℕ → TValue
  number : ℕ → TValue
  string : Bytes → TValue
  table : ℕ → TValue
  full_userdata : ℕ → TValue

-- What the code relies on below: conversions of numbers, and `luaH_next`, the pair of a table that
-- follows a key. `none` of `parse` is a text that is no number.
pub record Host : Type 0 where
  pub number2integer : ℕ → ℕ
  pub integer2number : ℕ → ℕ
  pub parse : Bytes → Option ℕ
  pub print : ℕ → Bytes
  pub luah_next : ℕ → TValue → Option (TValue × TValue)

abbrev pub Stack : Type 0
Stack = List TValue

abbrev pub ttype : TValue → ℕ
ttype nil = lua_tnil
ttype (boolean b) = lua_tboolean
ttype (light_userdata p) = lua_tlightuserdata
ttype (number n) = lua_tnumber
ttype (string s) = lua_tstring
ttype (table t) = lua_ttable
ttype (full_userdata p) = 7

abbrev pub at : Stack → ℕ → Option TValue
at [] i = none
at (v ∷ l) zero = some v
at (v ∷ l) (suc i) = at l i

-- `idx > 0` of an `int`, and `-idx` of a negative one.
abbrev pub is_positive : ℕ → Bool
is_positive idx = ltb 0 idx && ltb idx (2 ^ 31)

abbrev pub negated : ℕ → ℕ
negated idx = 2 ^ 32 - idx

-- `none` is `luaO_nilobject`.
unfoldable pub index2adr : Stack → ℕ → Option TValue
index2adr l idx =
    if is_positive idx
    then at l (idx - 1)
    else (if leb (negated idx) (length l) then at l (length l - negated idx) else none)

unfoldable pub lua_gettop : Stack → ℕ
lua_gettop l = to_int (length l)

-- Either `top` is moved to the index from the base, with nils in between, or down by `-idx - 1`.
unfoldable pub lua_settop : ℕ → Stack → Stack
lua_settop idx l =
    if ltb idx (2 ^ 31)
    then take idx l ++ replicate (idx - length l) nil
    else take (length l - (negated idx - 1)) l

-- `lua_pop`.
abbrev pub lua_pop : ℕ → Stack → Stack
lua_pop n = lua_settop (2 ^ 32 - n - 1)

abbrev pub luaa_pushobject : TValue → Stack → Stack
luaa_pushobject o l = l ++ o ∷ []

-- The object at an acceptable index.
abbrev pub object : Option TValue → TValue
object none = nil
object (some o) = o

unfoldable pub lua_pushvalue : ℕ → Stack → Stack
lua_pushvalue idx l = luaa_pushobject (object (index2adr l idx)) l

-- `LUA_TNONE` is -1.
abbrev pub type_of : Option TValue → ℕ
type_of none = 2 ^ 32 - 1
type_of (some o) = ttype o

unfoldable pub lua_type : Stack → ℕ → ℕ
lua_type l idx = type_of (index2adr l idx)

-- `l_isfalse`.
abbrev pub is_false : TValue → Bool
is_false nil = true
is_false (boolean b) = b == 0
is_false o = false

unfoldable pub lua_toboolean : Stack → ℕ → ℕ
lua_toboolean l idx = if is_false (object (index2adr l idx)) then 0 else 1

abbrev pub userdata_of : TValue → ℕ
userdata_of (light_userdata p) = p
userdata_of (full_userdata p) = p
userdata_of o = 0

unfoldable pub lua_touserdata : Stack → ℕ → ℕ
lua_touserdata l idx = userdata_of (object (index2adr l idx))

abbrev pub lua_pushnil : Stack → Stack
lua_pushnil = luaa_pushobject nil

abbrev pub lua_pushnumber : ℕ → Stack → Stack
lua_pushnumber n = luaa_pushobject (number n)

abbrev pub lua_pushlstring : Bytes → Stack → Stack
lua_pushlstring s = luaa_pushobject (string s)

abbrev pub lua_pushboolean : ℕ → Stack → Stack
lua_pushboolean b = luaa_pushobject (boolean (if b == 0 then 0 else 1))

abbrev pub lua_pushlightuserdata : ℕ → Stack → Stack
lua_pushlightuserdata p = luaa_pushobject (light_userdata p)

module _ (host : Host) where
  -- `tonumber`, which also reads numbers from strings.
  abbrev pub tonumber : TValue → Option ℕ
  tonumber (number n) = some n
  tonumber (string s) = host.parse s
  tonumber o = none

  abbrev pub or_zero : Option ℕ → ℕ
  or_zero none = 0
  or_zero (some n) = n

  abbrev pub integer_of : Option ℕ → ℕ
  integer_of none = 0
  integer_of (some n) = host.number2integer n

  abbrev pub is_some : Option ℕ → Bool
  is_some none = false
  is_some (some n) = true

  unfoldable pub lua_isnumber : Stack → ℕ → Bool
  lua_isnumber l idx = is_some (tonumber (object (index2adr l idx)))

  unfoldable pub lua_tonumber : Stack → ℕ → ℕ
  lua_tonumber l idx = or_zero (tonumber (object (index2adr l idx)))

  unfoldable pub lua_tointeger : Stack → ℕ → ℕ
  lua_tointeger l idx = integer_of (tonumber (object (index2adr l idx)))

  -- The text alone: that `luaV_tostring` turns a number on the stack into its text is left out, as
  -- the binding asks only for strings.
  abbrev pub string_of : TValue → Bytes
  string_of (string s) = s
  string_of (number n) = host.print n
  string_of o = []

  unfoldable pub lua_tolstring : Stack → ℕ → Bytes
  lua_tolstring l idx = string_of (object (index2adr l idx))

  abbrev pub lua_pushinteger : ℕ → Stack → Stack
  lua_pushinteger n = luaa_pushobject (number (host.integer2number n))

  unfoldable pub lual_checkinteger : Stack → ℕ → Option ℕ
  lual_checkinteger l narg =
      let d = lua_tointeger l narg in if d == 0 && not (lua_isnumber l narg) then none else some d

  abbrev pub lual_checkint : Stack → ℕ → Option ℕ
  lual_checkint l narg = elim (lual_checkinteger l narg) [ none ↦ none | some d ↦ some (to_int d) ]

  -- The key at the top gives way to the next pair, or is popped.
  abbrev pub pushed_pair : Option (TValue × TValue) → Stack → Bool × Stack
  pushed_pair none l = (false, take (length l - 1) l)
  pushed_pair (some kv) l = (true, take (length l - 1) l ++ kv.0 ∷ kv.1 ∷ [])

  abbrev pub next_of : TValue → TValue → Stack → Bool × Stack
  next_of (table t) key l = pushed_pair (host.luah_next t key) l
  next_of o key l = (false, l)

  unfoldable pub lua_next : ℕ → Stack → Bool × Stack
  lua_next idx l = next_of (object (index2adr l idx)) (object (index2adr l (2 ^ 32 - 1))) l

  -- `lua_isnil` is `lua_type` at the top.
  abbrev pub stack_api : LuaApi Stack
  stack_api = record {
    lua_type = lua_type;
    lua_tointeger = lua_tointeger;
    lua_tonumber = lua_tonumber;
    lua_toboolean = lua_toboolean;
    lua_tolstring = lua_tolstring;
    lua_touserdata = lua_touserdata;
    lual_checkint = lual_checkint;
    lua_isnil = λ l. lua_type l (2 ^ 32 - 1) == lua_tnil;
    lua_pushnil = lua_pushnil;
    lua_pushnumber = lua_pushnumber;
    lua_pushinteger = lua_pushinteger;
    lua_pushboolean = lua_pushboolean;
    lua_pushlightuserdata = lua_pushlightuserdata;
    lua_pushlstring = lua_pushlstring;
    to_double = host.integer2number;
  }
