-- ===== src/Tests/Assigned.antt =====
-- An assignment of a text from Lua, on the sample table and a stack of lua-5.1.4/src/lapi.c.
use lighttable.Prelude.{◌≡◌, refl, [], ◌∷◌, arith}
use lighttable.Struct.{Bytes, index}
use lighttable.State.{State}
use lighttable.Strings.Owned.{SameState}
use lighttable.Dictionary.{text, insert, stored, Represents}
use lighttable.Lua.{returns, get, set}
use lighttable.Lua.Contents.{HasKey, looked_up, push_content, set-get_content}
use lighttable.LuaStack.{
  TValue, light_userdata, Stack, stack_api, index2adr, lua_type, lua_tointeger, lua_tolstring,
}
use lighttable.Tests.Tables.{sample, junk}
use lighttable.Tests.Contents.{sample_contents, sample-Represents}
use lighttable.Tests.Binding.{host}

abbrev bye : Bytes
bye = 98 ∷ 121 ∷ 101 ∷ []

-- The arguments of `t[6] = "bye"`.
abbrev assignment : Stack
assignment = light_userdata 1 ∷ TValue.number 6 ∷ TValue.string bye ∷ []

-- The arguments of `t[7]`.
abbrev access : Stack
access = light_userdata 1 ∷ TValue.number 7 ∷ []

assignment-HasKey : HasKey (stack_api host) assignment 2 (index 6)
unfolding lua_type lua_tointeger index2adr
assignment-HasKey = (refl, refl)

access-HasKey : HasKey (stack_api host) access 2 (index 7)
unfolding lua_type lua_tointeger index2adr
access-HasKey = (refl, refl)

assignment-type : lua_type assignment 3 ≡ 4
unfolding lua_type index2adr
assignment-type = refl

assignment-text : lua_tolstring host assignment 3 ≡ bye
unfolding lua_tolstring index2adr
assignment-text = refl

set-get_content_example :
    (s' s'' : State) × (set (stack_api host) 101 201 junk assignment sample
      ≡ returns 0 assignment s')
    × Represents s' (insert (index 6) (stored (text bye)) sample_contents)
    × (get (stack_api host) junk (0, 0) access s'
        ≡ returns 1
            (push_content
              (stack_api host)
              (insert (index 6) (stored (text bye)) sample_contents (looked_up (index 7)))
              access)
            s'')
    × SameState s' s''
unfolding lighttable.Lmap.Stored.same_key
set-get_content_example =
    set-get_content (stack_api host) assignment access sample sample_contents (index 6) (index 7)
      (text bye) 101 201 junk junk (0, 0) assignment-HasKey (assignment-type, assignment-text)
      access-HasKey (omega arith, omega arith) sample-Represents (omega arith) (omega arith) tt
      (omega arith) refl refl
