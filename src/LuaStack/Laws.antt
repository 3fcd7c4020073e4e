-- ===== src/LuaStack/Laws.antt =====
-- What the binding in ltlua.cpp relies on, of the stack in lua-5.1.4/src/lapi.c.
use lighttable.Prelude.{
  ◌+◌, ◌-◌, ◌^◌, ◌≡◌, refl, true, some, [], ◌∷◌, ◌++◌, leb, length, arith, length-append,
}
use lighttable.Table.Read.{number, boolean, ud}
use lighttable.Lua.Index.{NotNil}
use lighttable.LuaStack.{
  TValue, Host, Stack, at, index2adr, lua_type, ttype, luaa_pushobject, stack_api,
}

at-append : (l : Stack) (o : TValue) → at (l ++ o ∷ []) (length l) ≡ some o
at-append [] o = refl
at-append (v ∷ l) o = at-append l o

-- What has been pushed last is at the index -1.
index2adr-pushobject :
    (o : TValue) (l : Stack) → index2adr (luaa_pushobject o l) (2 ^ 32 - 1) ≡ some o
unfolding index2adr
index2adr-pushobject o l =
    let n : length (l ++ o ∷ []) ≡ length l + 1 = length-append l (o ∷ []) in
    let one : leb 1 (length l + 1) ≡ true = ground arith in
    let before : length l + 1 - 1 ≡ length l = omega arith in rw (n, one, before) (at-append l o)

lua_type-pushobject :
    (o : TValue) (l : Stack) → lua_type (luaa_pushobject o l) (2 ^ 32 - 1) ≡ ttype o
unfolding lua_type
lua_type-pushobject o l = rw (index2adr-pushobject o l) refl

-- Numbers, booleans and light user data that are pushed are not nil.
pub stack_api-NotNil : (host : Host) → NotNil (stack_api host)
stack_api-NotNil host number v l = rw (lua_type-pushobject (TValue.number v) l) refl
stack_api-NotNil host boolean v l = rw (lua_type-pushobject (TValue.boolean _) l) refl
stack_api-NotNil host ud v l = rw (lua_type-pushobject (TValue.light_userdata v) l) refl

-- What stands below the object that has been pushed last.
pub at-below : (l : Stack) (o p : TValue) → at ((l ++ o ∷ []) ++ p ∷ []) (length l) ≡ some o
at-below [] o p = refl
at-below (v ∷ l) o p = at-below l o p
