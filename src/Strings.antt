-- ===== src/Strings.antt =====
-- The strings of a table in lighttable.cpp: value_string, get_string and set_string, and the
-- counts of references behind them. A string is returned as the address of its slot, whose `buf`
-- the source's `char *` points to; none stands for the constant "".
pub mod Owned
pub mod Update
pub mod Text
pub mod Dangling
use lighttable.Prelude.{
  ℕ, ◌+◌, ◌-◌, ◌^◌, Bool, true, false, Option, none, some, ◌==◌, if◌then◌else◌, take,
}
use lighttable.Prelude.Word.{to_int, to_size}
use lighttable.Struct.{Bytes, Key, StringSlot, Value, lt_nil, lt_string}
use lighttable.Util.{new_string}
use lighttable.State.{
  Ptr, Lstring, State, Run, ok, fault, spins, wild_access, Method, pure, ◌>>=◌, ◌>>◌, assert, write,
}
use lighttable.Table.{load_lstring, store_lstring, free_slot, search_table, insert_table, above_one}

unfoldable pub load_slot : Ptr → Method StringSlot
load_slot p s = elim (s.slots p) [ some t ↦ ok t s | none ↦ fault wild_access ]

unfoldable pub store_slot : Ptr → StringSlot → Method (Unit {0})
store_slot p t s = ok tt (record s { slots = write s.slots p (some t) })

-- `while (__sync_lock_test_and_set(&s->lock, 1)) {}` and `__sync_lock_release(&s->lock)`.
unfoldable pub take_string_lock : Ptr → Method (Unit {0})
take_string_lock p = do
  l ← load_lstring p
  if l.lock == 0 then store_lstring p (some (record l { lock = 1 })) else (λ s. fault spins)

unfoldable pub free_string_lock : Ptr → Method (Unit {0})
free_string_lock p = do l ← load_lstring p; store_lstring p (some (record l { lock = 0 }))

unfoldable pub grab_string : Ptr → Method Ptr
grab_string p = do
  take_string_lock p
  l ← load_lstring p
  t ← load_slot l.slot
  let ref = to_int (t.ref + 1)
  store_slot l.slot (record t { ref = ref })
  assert (above_one ref)
  free_string_lock p
  pure l.slot

unfoldable pub release_string : Ptr → Method (Unit {0})
release_string p = do
  t ← load_slot p
  let ref = to_int (t.ref + 2 ^ 32 - 1)
  store_slot p (record t { ref = ref })
  if ref == 0 then free_slot p else pure tt

-- What the callback is handed: `sz` bytes at `buf`.
unfoldable pub value_string : ℕ → Method Bytes
value_string v = do
  p ← grab_string v
  t ← load_slot p
  release_string p
  pure (take (to_size t.sz) t.buf)

unfoldable pub get_string : Key → Value → Method (Option Ptr)
get_string k tmp = do
  r ← search_table k tmp
  if r.type == lt_string
      then (do p ← grab_string r.v; release_string p; pure (some p))
      else (do assert (r.type == lt_nil); pure none)

-- `ns` is the address of the new slot. The old slot is freed with its last reference.
unfoldable pub update_string : Ptr → Bytes → Ptr → Method (Unit {0})
update_string p text ns = do
  store_slot ns (new_string text)
  take_string_lock p
  l ← load_lstring p
  store_lstring p (some (record l { slot = ns }))
  old ← load_slot l.slot
  let ref = to_int (old.ref + 2 ^ 32 - 1)
  store_slot l.slot (record old { ref = ref })
  free_string_lock p
  if ref == 0 then free_slot l.slot else pure tt

-- A new `lstring` at `ls`, with its slot at `ns`. `memset` clears the lock.
unfoldable pub new_lstring : Ptr → Ptr → Bytes → Method (Unit {0})
new_lstring ls ns text = do
  store_lstring ls (some (record { lock = 0; slot = ns }))
  store_slot ns (new_string text)

unfoldable pub set_string : Key → Bytes → Ptr → Ptr → Value → Method ℕ
set_string k text ls ns tmp = do
  r ← search_table k tmp
  if r.type == lt_string
      then (do update_string r.v text ns; pure 0)
      else (if r.type == lt_nil
          then (do
            new_lstring ls ns text
            insert_table k (record r { type = lt_string; v = ls })
            pure 0)
          else pure 1)
