-- ===== src/World/Values.antt =====
-- _copy_value of ltutil.cpp. `ls` and `ns` are the addresses that `malloc` returns.
use lighttable.Prelude.{Option, none, some, ◌==◌, if◌then◌else◌, take}
use lighttable.Prelude.Word.{to_size}
use lighttable.Struct.{StringSlot, Value, with_b, b_of, lt_number, lt_boolean, lt_ud, lt_string}
use lighttable.Util.{new_string}
use lighttable.State.{Ptr, Lstring, ok, pure, ◌>>=◌, ◌>>◌, write}
use lighttable.Lifetime.{grab}
use lighttable.World.{Action, stop, on}

abbrev pub lstring_of : Option Lstring → Action Lstring
lstring_of none = stop
lstring_of (some l) = pure l

abbrev pub slot_of : Option StringSlot → Action StringSlot
slot_of none = stop
slot_of (some t) = pure t

-- `ov->v.s->slot`.
abbrev pub load_string : Ptr → Action StringSlot
load_string p = do
  l ← (λ w. lstring_of (w.memory.lstrings p) w)
  λ w. slot_of (w.memory.slots l.slot) w

-- The new `lstring` and its slot.
abbrev pub store_string : Ptr → Ptr → StringSlot → Action (Unit {0})
store_string ls ns t w = ok tt (record w {
  memory = record w.memory {
    lstrings = write w.memory.lstrings ls (some (record { lock = 0; slot = ns }));
    slots = write w.memory.slots ns (some t);
  };
})

-- `tv` as it is left.
unfoldable pub copy_value : Value → Value → Ptr → Ptr → Action Value
copy_value ov tv ls ns =
    if ov.type == lt_number
    then pure (record tv { v = ov.v })
    else (if ov.type == lt_boolean
        then pure (record tv { v = with_b tv.v (b_of ov.v) })
        else (if ov.type == lt_ud
            then (do on ov.v grab; pure (record tv { v = ov.v }))
            else (if ov.type == lt_string
                then (do
                  t ← load_string ov.v
                  store_string ls ns (new_string (take (to_size t.sz) t.buf))
                  pure (record tv { v = ls }))
                else pure tv)))
