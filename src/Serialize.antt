-- ===== src/Serialize.antt =====
-- serialize of lighttable.cpp: _add_string_to_buff, _do_serialize, serialize, get_serialed and
-- unserialize. What `sprintf` makes of an `int` by "%d" and of a double by "%lf" is a parameter.
pub mod Bounds
pub mod Tree
pub mod Wrote
pub mod Printed
pub mod Endless
use lighttable.Prelude.{
  ℕ, zero, suc, ◌+◌, ◌^◌, Bool, true, false, Option, none, some, List, [], ◌∷◌, ◌++◌, ltb, ◌==◌,
  not, if◌then◌else◌, length, drop, ◌-◌,
}
use lighttable.Prelude.Word.{to_int}
use lighttable.Struct.{
  Bytes, Value, TableKey, StringSlot, lt_nil, lt_number, lt_boolean, lt_ud, lt_string,
}
use lighttable.State.{Ptr, RunOn, ok, fault, wild_access, stack_overflow, pure, ◌>>=◌, ◌>>◌}
use lighttable.Table.{get_number, get_boolean, get_ud}
use lighttable.Strings.{get_string}
use lighttable.Keys.{size, keys}
use lighttable.Keys.Found.{listed_key}
use lighttable.World.{World, SerializeBuff, Action, stop, on}

abbrev pub buf_size : ℕ
buf_size = 0x80_0000

-- The text is read up to its first zero byte; the list ends at the latest with it.
unfoldable pub add_string_to_buff : Bytes → Bytes → Bytes
add_string_to_buff [] buff = buff
add_string_to_buff (c ∷ str) buff =
    let rest = add_string_to_buff str (buff ++ c ∷ []) in
    if c == 0 then buff else (if ltb (length buff) buf_size then rest else buff)

-- A call of it on `serialed`.
unfoldable pub add : Bytes → Action (Unit {0})
add str w = ok tt (record w {
  serialed = record w.serialed { written = add_string_to_buff str w.serialed.written };
})

-- What "%s" prints: the bytes before the first zero byte, which for the text of a slot stands at
-- the latest after the bytes of the list.
unfoldable pub c_string : Bytes → Bytes
c_string [] = []
c_string (c ∷ str) = if c == 0 then [] else c ∷ c_string str

pub record Printf : Type 0 where
  pub show_int : ℕ → Bytes
  pub show_double : ℕ → Bytes

-- The room in `temp`.
abbrev pub temp_size : ℕ
temp_size = 1000

-- `sprintf(temp, ...)` of a text, with its zero byte, and `_add_string_to_buff(temp)`.
unfoldable pub put : Bytes → Action (Unit {0})
put text = if ltb (length text) temp_size then add text else stop

-- The type -1 of a key.
abbrev pub minus_one : ℕ
minus_one = 2 ^ 32 - 1

-- The `char *` that `get_string` returns, read up to its zero byte.
abbrev pub text_of : Option StringSlot → Action Bytes
text_of none = stop
text_of (some t) = pure (c_string t.buf)

abbrev pub read_string : Option Ptr → Action Bytes
read_string none w = ok [] w
read_string (some p) w = text_of (w.memory.slots p) w

-- The text of a boolean.
abbrev pub show_boolean : ℕ → Bytes
show_boolean b =
    if b == 0 then b'f' ∷ b'a' ∷ b'l' ∷ b's' ∷ b'e' ∷ [] else b't' ∷ b'r' ∷ b'u' ∷ b'e' ∷ []

-- `buff` as it is after what has been written over it.
abbrev pub get_serialed : SerializeBuff → Bytes
get_serialed b = b.written ++ drop (length b.written) b.before

abbrev pub rewind : Action (Unit {0})
rewind w = ok tt (record w { serialed = record { written = []; before = get_serialed w.serialed } })

-- What `printf("\nresult=%s\n", serialed.buff)` prints.
abbrev pub result_line : Bytes → Bytes
result_line buff =
    b'\n' ∷ b'r' ∷ b'e' ∷ b's' ∷ b'u' ∷ b'l' ∷ b't' ∷ b'=' ∷ (c_string buff ++ b'\n' ∷ [])

unfoldable pub has_zero : Bytes → Bool
has_zero [] = false
has_zero (c ∷ buff) = if c == 0 then true else has_zero buff

-- Where the buffer has no zero byte, `printf` reads past it.
unfoldable pub print_buff : Action (Unit {0})
print_buff w =
    if has_zero (get_serialed w.serialed)
    then ok tt (record w { printed = w.printed ++ result_line (get_serialed w.serialed) })
    else fault wild_access

module _ (printf : Printf) (tmp : Value) where
  -- The part before the value.
  abbrev pub put_key : Option Bytes → ℕ → ℕ → Action (Unit {0})
  put_key none sz_idx type =
      if type == minus_one
      then pure tt
      else put (b'[' ∷ b'"' ∷ printf.show_int (to_int sz_idx) ++ b'"' ∷ b']' ∷ b'=' ∷ [])
  put_key (some key) sz_idx type =
      put (b'[' ∷ b'"' ∷ c_string key ++ b'"' ∷ b']' ∷ b' ' ∷ b'=' ∷ b' ' ∷ [])

  -- The switch. The braces that the case of a table prints to `temp` are not added to the buffer.
  -- `again` is `_do_serialize`, a level deeper.
  unfoldable pub put_value : (Ptr → Action (Unit {0})) → Ptr → TableKey → Action (Unit {0})
  put_value again p k =
      if k.type == lt_nil
      then pure tt
      else (if k.type == lt_number
          then (do d ← on p (get_number (listed_key k) tmp); put (printf.show_double d))
          else (if k.type == lt_boolean
              then (do b ← on p (get_boolean (listed_key k) tmp); put (show_boolean b))
              else (if k.type == lt_ud
                  then (do sub ← on p (get_ud (listed_key k) tmp); again sub)
                  else (if k.type == lt_string
                      then (do
                        strret ← on p (get_string (listed_key k) tmp)
                        text ← read_string strret
                        put (b'"' ∷ text ++ b'"' ∷ []))
                      else pure tt))))

  -- The loop over the keys.
  unfoldable pub put_entries : (Ptr → Action (Unit {0})) → Ptr → List TableKey → Action (Unit {0})
  unfolding put_value
  put_entries again p [] = pure tt
  put_entries again p (k ∷ ks) = do
    put_key k.key k.sz_idx k.type
    put_value again p k
    (if k.type == minus_one then pure tt else add (b',' ∷ b'\n' ∷ []))
    put_entries again p ks

  -- `_do_serialize`, on a stack with room for so many calls.
  unfoldable pub do_serialize : ℕ → Ptr → Action (Unit {0})
  do_serialize zero p = λ w. fault stack_overflow
  do_serialize (suc depth) p = do
    cap ← on p size
    ks ← on p (keys cap)
    add (b'{' ∷ [])
    put_entries (do_serialize depth) p ks
    add (b'}' ∷ [])

  unfoldable pub serialize : ℕ → Ptr → Action ℕ
  serialize depth p = do rewind; do_serialize depth p; print_buff; pure 0

abbrev pub unserialize : Bytes
unserialize = []
