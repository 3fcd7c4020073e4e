-- ===== src/Lua.antt =====
-- ltlua.cpp: the Lua functions on one table. `lua_State` and the API functions of Lua are
-- parameters. A Lua integer is its 64 bits, a number the bits of the double. `t`, the table at
-- index 1, is the table of the state.

pub mod Index
pub mod Contents
pub mod Size
pub mod Pairs
pub mod Visits
pub mod Tables
pub mod Convert
use lighttable.Prelude.{
  ℕ, ◌+◌, ◌-◌, ◌^◌, Bool, true, false, ◌&&◌, Option, none, some, List, leb, ltb, ◌==◌,
  if◌then◌else◌, length,
}
use lighttable.Prelude.Word.{to_int, to_size}
use lighttable.Struct.{
  Bytes, Key, Value, b_of, TableKey, lt_nil, lt_number, lt_boolean, lt_ud, lt_string,
}
use lighttable.State.{Ptr, State, RunOn, ok, fault, Fault, Method, assert}
use lighttable.Table.{get_type, set_number, set_boolean, set_ud}
use lighttable.Strings.{value_string, set_string}
use lighttable.Keys.{size, keys}

abbrev pub lua_tboolean : ℕ
lua_tboolean = 1

abbrev pub lua_tlightuserdata : ℕ
lua_tlightuserdata = 2

abbrev pub lua_tnumber : ℕ
lua_tnumber = 3

abbrev pub lua_tstring : ℕ
lua_tstring = 4

-- What is called of the API: reads at an index of the stack, and pushes. `lual_checkint` is none
-- where it raises an error, `lua_isnil` looks at the top, and `to_double` converts a number.
pub record LuaApi (L : Type 0) : Type 0 where
  pub lua_type : L → ℕ → ℕ
  pub lua_tointeger : L → ℕ → ℕ
  pub lua_tonumber : L → ℕ → ℕ
  pub lua_toboolean : L → ℕ → ℕ
  pub lua_tolstring : L → ℕ → Bytes
  pub lua_touserdata : L → ℕ → ℕ
  pub lual_checkint : L → ℕ → Option ℕ
  pub lua_isnil : L → Bool
  pub lua_pushnil : L → L
  pub lua_pushnumber : ℕ → L → L
  pub lua_pushinteger : ℕ → L → L
  pub lua_pushboolean : ℕ → L → L
  pub lua_pushlightuserdata : ℕ → L → L
  pub lua_pushlstring : Bytes → L → L
  pub to_double : ℕ → ℕ

-- `raises`: `luaL_error` leaves the function. `stops`: the table's method faults.
pub data Outcome (S L A : Type 0) : Type 0 where
  returns : A → L → S → Outcome S L A
  raises : L → S → Outcome S L A
  stops : Fault → Outcome S L A

abbrev pub Binding : Type 0 → Type 0 → Type 0 → Type 0
Binding S L A = L → S → Outcome S L A

module _ {S L : Type 0} where
  abbrev pub give : {A : Type 0} → A → Binding S L A
  give = returns

  abbrev pub raise : {A : Type 0} → Binding S L A
  raise = raises

  module _ {A B : Type 0} where
    abbrev pub and_then : Outcome S L A → (A → Binding S L B) → Outcome S L B
    and_then (returns a l s) f = f a l s
    and_then (raises l s) f = raises l s
    and_then (stops e) f = stops e

    infixl 5 ◌>>=◌ ◌>>◌
    abbrev pub ◌>>=◌ : Binding S L A → (A → Binding S L B) → Binding S L B
    f >>= g = λ l s. and_then (f l s) g

    abbrev pub ◌>>◌ : Binding S L A → Binding S L B → Binding S L B
    f >> g = f >>= λ _. g

  abbrev pub ended : {A : Type 0} → RunOn S A → L → Outcome S L A
  ended (ok a s) l = returns a l s
  ended (fault e) l = stops e

  -- A call of a method of the table, or of an action on the world.
  abbrev pub call : {A : Type 0} → (S → RunOn S A) → Binding S L A
  call m l s = ended (m s) l

  -- A read of the stack, and a push.
  abbrev pub look : {A : Type 0} → (L → A) → Binding S L A
  look f l = returns (f l) l

  abbrev pub push : (L → L) → Binding S L (Unit {0})
  push f l = returns tt (f l)

  abbrev pub checked : {A : Type 0} → Option A → Binding S L A
  checked none = raise
  checked (some a) = give a

-- `idx <= 0` of an `int`.
abbrev pub not_positive : ℕ → Bool
not_positive idx = if idx == 0 then true else leb (2 ^ 31) idx

module _ {L : Type 0} (lua : LuaApi L) where
  -- `_get_value`, on the type and the eight bytes of the union.
  unfoldable pub get_value : ℕ → ℕ → Binding State L (Unit {0})
  get_value ttype tv =
      if ttype == lt_nil
      then push lua.lua_pushnil
      else (if ttype == lt_number
          then push (lua.lua_pushnumber tv)
          else (if ttype == lt_boolean
              then push (lua.lua_pushboolean (b_of tv))
              else (if ttype == lt_ud
                  then push (lua.lua_pushlightuserdata tv)
                  else (if ttype == lt_string
                      then (do text ← call (value_string tv); push (lua.lua_pushlstring text))
                      else raise))))

  -- `_size`, the count of what `keys` lists.
  unfoldable pub lua_size : Binding State L ℕ
  lua_size = do
    cap ← call size
    tv ← call (keys cap)
    call (assert (leb (length tv) cap))
    push (lua.lua_pushnumber (lua.to_double (length tv)))
    give 1

  -- `_ipairsaux`, where `tmp` is what `get_type` finds on its stack.
  unfoldable pub ipairsaux : Value → Binding State L ℕ
  ipairsaux tmp = do
    pre ← look (λ l. lua.lual_checkint l 2)
    i₀ ← checked pre
    type ← look (λ l. lua.lua_type l 1)
    checked (if type == lua_tlightuserdata then some tt else none)
    let i = to_int (i₀ + 1)
    push (lua.lua_pushinteger (to_size i))
    tv ← call (get_type (Key.index (to_size i)) tmp)
    get_value tv.0 tv.1
    nil ← look lua.lua_isnil
    give (if nil then 0 else 2)

  -- `_get`. `unset` is what `ttype` and `tv` hold where no case of the switch is taken.
  unfoldable pub get : Value → ℕ × ℕ → Binding State L ℕ
  get tmp unset = do
    type ← look (λ l. lua.lua_type l 2)
    tv ←
        (if type == lua_tnumber
          then (do
            idx ← look (λ l. to_int (lua.lua_tointeger l 2))
            if not_positive idx then raise else call (get_type (Key.index (to_size (idx - 1))) tmp))
          else (if type == lua_tstring
              then (do key ← look (λ l. lua.lua_tolstring l 2); call (get_type (Key.name key) tmp))
              else give unset))
    get_value tv.0 tv.1
    give 1

  -- `_get_key`. The test `sz < 0` of a `size_t` never holds.
  unfoldable pub get_key : ℕ → Binding State L Key
  get_key key_idx = do
    type ← look (λ l. lua.lua_type l key_idx)
    if type == lua_tnumber
        then (do sz ← look (λ l. lua.lua_tointeger l key_idx); give (Key.index sz))
        else (if type == lua_tstring
            then (do key ← look (λ l. lua.lua_tolstring l key_idx); give (Key.name key))
            else raise)

  -- The switch of `_set_value`: `ret`. `ls` and `ns` are what `malloc` returns.
  unfoldable pub set_by_type : Key → ℕ → Ptr → Ptr → Value → Binding State L ℕ
  set_by_type key idx ls ns tmp = do
    type ← look (λ l. lua.lua_type l idx)
    if type == lua_tnumber
        then (do n ← look (λ l. lua.lua_tonumber l idx); call (set_number key n tmp))
        else (if type == lua_tboolean
            then (do b ← look (λ l. lua.lua_toboolean l idx); call (set_boolean key b tmp))
            else (if type == lua_tstring
                then (do
                  str ← look (λ l. lua.lua_tolstring l idx)
                  call (set_string key str ls ns tmp))
                else (if type == lua_tlightuserdata
                    then (do ud ← look (λ l. lua.lua_touserdata l idx); call (set_ud key ud tmp))
                    else raise)))

  -- `_set_value`; `_error` raises an error for either kind of key.
  unfoldable pub set_value : Key → ℕ → Ptr → Ptr → Value → Binding State L (Unit {0})
  set_value key idx ls ns tmp = do
    ret ← set_by_type key idx ls ns tmp
    if ret == 0 then give tt else raise

  -- `_set`.
  unfoldable pub set : Ptr → Ptr → Value → Binding State L ℕ
  set ls ns tmp = do key ← get_key 2; set_value key 3 ls ns tmp; give 0
