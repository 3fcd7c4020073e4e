-- ===== src/Tests/Binding.antt =====
-- The theorems on ltlua.cpp, at the table of Tests/Tables and stacks of lua-5.1.4/src/lapi.c.
-- Numbers are taken to be integers, so that their conversions do nothing.
use lighttable.Prelude.{
  ℕ, ◌-◌, ◌≡◌, refl, none, [], ◌∷◌, ◌++◌, take, length-append, ◌==◌, if◌then◌else◌, length, arith,
  inl,
}
use lighttable.Struct.{Key, name, index, lt_number, lt_boolean}
use lighttable.State.{State}
use lighttable.Table.Valid.{reads}
use lighttable.Table.Read.{Kind, number, boolean, ud, found}
use lighttable.Table.Write.{built, outcome}
use lighttable.Table.Insert.{Inserted}
use lighttable.Lua.{returns, raises, give, ◌>>◌, get_value, get, set, ipairsaux, lua_size}
use lighttable.Lua.Index.{HasIndex, HasValue, HasStep, set-Inserted, set-get, set-ipairsaux, pushed}
use lighttable.LuaStack.{
  TValue, light_userdata, full_userdata, string, at, object, ttype, lua_pushvalue, Host, Stack,
  stack_api, index2adr, lua_type, lua_tointeger, lua_tonumber, lua_isnumber, lual_checkinteger,
}
use lighttable.LuaStack.Laws.{stack_api-NotNil, at-below}
use lighttable.Lua.Size.{lua_size-min}
use lighttable.Lua.Pairs.{PairsCalls, push_key}
use lighttable.Lua.Visits.{ForLoop, key_type}
use lighttable.Lmap.{numkey, Lmap}
use lighttable.Tests.Tables.{sample_map, seventy_seven, sample, sample-IsTable, junk, seven}

abbrev pub host : Host
host = record {
  number2integer = λ n. n;
  integer2number = λ n. n;
  parse = λ text. none;
  print = λ n. [];
  luah_next = λ t key. none;
}

-- The arguments of `t[7] = 42`.
abbrev assignment : Stack
assignment = light_userdata 1 ∷ TValue.number 7 ∷ TValue.number 42 ∷ []

-- The arguments of a step of `ipairs` after the sixth.
abbrev sixth : Stack
sixth = light_userdata 1 ∷ TValue.number 6 ∷ []

assignment-HasIndex : HasIndex (stack_api host) assignment 7
unfolding lua_type lua_tointeger index2adr
assignment-HasIndex = record { type = refl; value = refl }

assignment-HasValue : HasValue (stack_api host) assignment number 42
unfolding lua_type lua_tonumber index2adr
assignment-HasValue = record { type = refl; value = refl }

sixth-HasStep : HasStep (stack_api host) sixth 6
unfolding lua_type lual_checkinteger lua_tointeger lua_isnumber index2adr
sixth-HasStep = record { type = refl; value = refl }

set-Inserted_example :
    (s' : State) × (set (stack_api host) 101 201 junk assignment sample ≡ (
      if outcome (reads sample (index 7)) lt_number == 0
      then returns 0 assignment s'
      else raises assignment s'))
    × Inserted sample (index 7) (built number 42 junk) s'
set-Inserted_example =
    set-Inserted (stack_api host) sample sample-IsTable assignment number 42 assignment-HasValue
      (omega arith) 101 201 junk 7 assignment-HasIndex (omega arith)

set-get_example :
    (s' : State) × (set (stack_api host) 101 201 junk assignment sample ≡ returns 0 assignment s')
    × (let r = found (reads sample (index 6)) junk in
        get (stack_api host) junk (0, 0) assignment s'
        ≡ (get_value (stack_api host) r.type r.v >> give 1) assignment s')
set-get_example =
    set-get (stack_api host) sample sample-IsTable assignment number 42 assignment-HasValue
      (omega arith) 101 201 junk 6 assignment-HasIndex (omega arith) (inl seven) junk (0, 0)

set-ipairsaux_example :
    (s' : State) × (set (stack_api host) 101 201 junk assignment sample ≡ returns 0 assignment s')
    × (ipairsaux (stack_api host) junk sixth s'
        ≡ returns 2
            (light_userdata 1 ∷ TValue.number 6 ∷ TValue.number 7 ∷ TValue.number 42 ∷ [])
            s')
set-ipairsaux_example =
    set-ipairsaux (stack_api host) sample sample-IsTable assignment number 42 assignment-HasValue
      (omega arith) 101 201 junk 6 assignment-HasIndex (omega arith) (inl seven) sixth junk
      (stack_api-NotNil host) sixth-HasStep

lua_size-min_example :
    lua_size (stack_api host) sixth sample
    ≡ returns 1 (light_userdata 1 ∷ TValue.number 6 ∷ TValue.number 2 ∷ []) sample
unfolding lighttable.Lmap.Count.entries
lua_size-min_example = lua_size-min (stack_api host) sample sample-IsTable (omega arith) sixth

-- A table that holds the number 77 under the key 5 and true under the key 6.
abbrev numbers_map : Lmap
numbers_map = record sample_map {
  buckets =
      (record { key = numkey 5; v = seventy_seven }
        ∷ record { key = numkey 6; v = record { ref = 1; type = lt_boolean; v = 1 } }
        ∷ [])
      ∷ [];
}

abbrev numbers : State
numbers = record sample { table = record sample.table { map = numbers_map } }

-- What the loop of Lua calls the closure with: the table, and the key below the last value.
abbrev pairs_calls : PairsCalls Stack
pairs_calls = record {
  api = stack_api host;
  lua_newuserdata = λ ks l. l ++ full_userdata 0 ∷ [];
  lua_pushcclosure = λ n l. take (length l - n) l ++ full_userdata 1 ∷ [];
  lua_pushvalue = lua_pushvalue;
}

abbrev called : TValue → Stack
called key = light_userdata 1 ∷ key ∷ []

abbrev next_call : Stack → Stack
next_call l = called (object (at l (length l - 2)))

lua_type-called : (key : TValue) → lua_type (called key) 2 ≡ ttype key
unfolding lua_type index2adr
lua_type-called key = refl

next_call-type :
    (l : Stack) (key value : TValue)
    → lua_type (next_call ((l ++ key ∷ []) ++ value ∷ [])) 2 ≡ ttype key
next_call-type l key value =
    let n : length ((l ++ key ∷ []) ++ value ∷ []) - 2 ≡ length l =
      omega (arith, length-append (l ++ key ∷ []) (value ∷ []), length-append l (key ∷ [])) in
    rw (n, at-below l key value) (lua_type-called key)

pushed-type :
    (k : Key) (kind : Kind) (w : ℕ) (l : Stack)
    → lua_type (next_call (pushed (stack_api host) kind w (push_key (stack_api host) k l))) 2
      ≡ key_type k
pushed-type (name text) number w l = next_call-type l (string text) (TValue.number w)
pushed-type (name text) boolean w l = next_call-type l (string text) (TValue.boolean _)
pushed-type (name text) ud w l = next_call-type l (string text) (light_userdata w)
pushed-type (index num) number w l = next_call-type l (TValue.number num) (TValue.number w)
pushed-type (index num) boolean w l = next_call-type l (TValue.number num) (TValue.boolean _)
pushed-type (index num) ud w l = next_call-type l (TValue.number num) (light_userdata w)

abbrev pairs_loop : ForLoop pairs_calls
pairs_loop = record {
  begin = λ l. called TValue.nil;
  again = next_call;
  begin_nil = λ l. lua_type-called TValue.nil;
  again_key = pushed-type;
}
