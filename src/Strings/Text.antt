-- ===== src/Strings/Text.antt =====
-- get_string and set_string of lighttable.cpp.
use lighttable.Prelude.{
  ◌^◌, ◌≡◌, refl, ◌≢◌, ◌<◌, ◌≤◌, ◌*◌, true, false, none, some, ◌==◌, if◌then◌else◌, length, arith,
  ap, ◌∙◌,
}
use lighttable.Prelude.Word.{IsInt}
use lighttable.Struct.{Bytes, Key, StringSlot, Value, lt_nil, lt_string}
use lighttable.Util.{new_string}
use lighttable.Lmap.Stored.{IsKey, same_key}
use lighttable.Lmap.Chain.{replaced}
use lighttable.State.{Ptr, Lstring, State, ok, write}
use lighttable.Table.{store_lstring}
use lighttable.Table.Valid.{IsTable, reads}
use lighttable.Table.Read.{search_table-found}
use lighttable.Table.Insert.{Inserted, Inserted-size, insert_table-Inserted}
use lighttable.Strings.{new_lstring, get_string, set_string, store_slot}
use lighttable.Strings.Owned.{Owns, SameState, write_self, grab_release}
use lighttable.Strings.Update.{HoldsText, Replaced, update_string-Replaced, new_string-text}

-- The state in which `set_string` inserts a new string.
abbrev allocated : State → Ptr → Ptr → Bytes → State
allocated s ls ns text = record s {
  lstrings = write s.lstrings ls (some (record { lock = 0; slot = ns }));
  slots = write s.slots ns (some (new_string text));
}

-- What there was is still there, nothing is added but at the two addresses, and the table has at most
-- twice as many slots.
pub record Extends (s : State) (ls ns : Ptr) (s' : State) : Type 0 where
  pub no_lstrings : (p : Ptr) → p ≢ ls → s.lstrings p ≡ none → s'.lstrings p ≡ none
  pub no_slots : (a : Ptr) → a ≢ ns → s.slots a ≡ none → s'.slots a ≡ none
  pub lstrings : (p : Ptr) (l : Lstring) → s.lstrings p ≡ some l → s'.lstrings p ≡ some l
  pub slots : (a : Ptr) (t : StringSlot) → s.slots a ≡ some t → s'.slots a ≡ some t
  pub size : s'.table.map.size ≤ s.table.map.size * 2
  pub ref : s'.table.ref ≡ s.table.ref

-- What a new string under a new key leaves.
pub record Added (s : State) (k : Key) (tmp : Value) (ls ns : Ptr) (text : Bytes) (s' : State)
    : Type 0 where
  pub quiet : IsTable s'.table
  pub reads_as :
      (q : Key)
      → reads s' q ≡ (
          if same_key q k
          then some (record tmp { ref = 1; type = lt_string; v = ls })
          else reads s q)
  pub holds : HoldsText s' ls text
  pub others : (q b : Ptr) (u : StringSlot) → Owns s q b u → Owns s' q b u
  pub apart : (q b : Ptr) (u : StringSlot) → Owns s q b u → (q ≢ ls) × (b ≢ holds.slot)
  pub at_slot : holds.slot ≡ ns
  pub extends : Extends s ls ns s'

module _ (s s' : State) (k : Key) (v : Value) (ls ns : Ptr) (text : Bytes)
    (is : Inserted (allocated s ls ns text) k v s') where
  allocated-HoldsText : IsInt (length text) → HoldsText s' ls text
  unfolding new_string
  allocated-HoldsText small = record {
    slot = ns;
    content = new_string text;
    owns = record {
      here = rw is.lstrings (write_self s.lstrings ls (some (record { lock = 0; slot = ns })));
      there = rw is.slots (write_self s.slots ns (some (new_string text)));
      once = refl;
    };
    reads_text = new_string-text text small;
  }

  allocated-Owns :
      s.lstrings ls ≡ none
      → s.slots ns ≡ none
      → (q b : Ptr) (u : StringSlot) → Owns s q b u
      → Owns s' q b u
  allocated-Owns fresh_ls fresh_ns q b u owns =
      let q-ne : q ≢ ls = λ e. cc (ap s.lstrings e, fresh_ls, owns.here) in
      let b-ne : b ≢ ns = λ e. cc (ap s.slots e, fresh_ns, owns.there) in
      record {
        here = rw is.lstrings (ground (arith, owns.here));
        there = rw is.slots (ground (arith, owns.there));
        once = owns.once;
      }

  allocated-Extends : s.lstrings ls ≡ none → s.slots ns ≡ none → Extends s ls ns s'
  allocated-Extends fresh_ls fresh_ns = record {
    no_lstrings = λ p ne e. rw is.lstrings (ground (arith, e));
    no_slots = λ a ne e. rw is.slots (ground (arith, e));
    lstrings = λ p l e.
        let ne : p ≢ ls = λ z. cc (ap s.lstrings z, fresh_ls, e) in
        rw is.lstrings (ground (arith, e));
    slots = λ a t e.
        let ne : a ≢ ns = λ z. cc (ap s.slots z, fresh_ns, e) in rw is.slots (ground (arith, e));
    size = Inserted-size is;
    ref = is.ref;
  }

module _ (s : State) (quiet : IsTable s.table) (k : Key) (tmp : Value) where
  -- On a table that no method works on, get_string of a key whose entry is a string with an lstring
  -- and slot of its own returns the slot's text; the table and the contents of memory are
  -- afterwards what they were.
  pub get_string-ok :
      (v : Value) (a : Ptr) (t : StringSlot)
      → reads s k ≡ some v
      → v.type ≡ lt_string
      → Owns s v.v a t
      → (s' : State) × (get_string k tmp s ≡ ok (some a) s') × SameState s s'
  unfolding get_string
  get_string-ok v a t there string owns =
      let is : (v.type == lt_string) ≡ true = ground arith in
      let (s', run, same) = grab_release s v.v a t owns in
      (s', rw (search_table-found s quiet k tmp, there, is, run) refl, same)

  -- On a table that no method works on and a key whose entry is a string with an lstring and slot
  -- of its own, set_string with an unused address for the new slot and a text whose length an int
  -- can hold returns 0; the lstring then holds the text, the old slot is freed, and the table and
  -- every string that shares neither the lstring nor the slot stay as they were.
  pub set_string-string :
      (v : Value) (a ls ns : Ptr) (t : StringSlot) (text : Bytes)
      → reads s k ≡ some v
      → v.type ≡ lt_string
      → Owns s v.v a t
      → s.slots ns ≡ none
      → IsInt (length text)
      → (s' : State) × (set_string k text ls ns tmp s ≡ ok 0 s') × Replaced s v.v a ns text s'
  unfolding set_string
  set_string-string v a ls ns t text there string owns fresh small =
      let is : (v.type == lt_string) ≡ true = ground arith in
      let (s', run, done) = update_string-Replaced s v.v a ns t text owns fresh small in
      (s', rw (search_table-found s quiet k tmp, there, is, run) refl, done)

  -- On a table that no method works on, set_string of a key whose entry has another type than
  -- string returns 1 and changes nothing.
  pub set_string-other :
      (v : Value) (ls ns : Ptr) (text : Bytes)
      → reads s k ≡ some v
      → v.type ≢ lt_string
      → v.type ≢ lt_nil
      → set_string k text ls ns tmp s ≡ ok 1 s
  unfolding set_string
  set_string-other v ls ns text there not_string not_nil =
      let a : (v.type == lt_string) ≡ false = ground arith in
      let b : (v.type == lt_nil) ≡ false = ground arith in
      rw (search_table-found s quiet k tmp, there, a, b) refl

  -- On a table that no method works on, with fewer than 2^30 slots, and a key without an entry that
  -- an int can hold, set_string with unused addresses for the lstring and the slot and a text whose
  -- length an int can hold returns 0; the key then has an entry of type string that points to the
  -- new lstring, which holds the text, every other key reads as before, and every string stays as
  -- it was.
  pub set_string-new :
      (ls ns : Ptr) (text : Bytes)
      → IsKey k
      → s.table.map.size < 2 ^ 30
      → reads s k ≡ none
      → s.lstrings ls ≡ none
      → s.slots ns ≡ none
      → IsInt (length text)
      → (s' : State) × (set_string k text ls ns tmp s ≡ ok 0 s') × Added s k tmp ls ns text s'
  unfolding set_string new_lstring store_lstring store_slot replaced allocated-HoldsText
  set_string-new ls ns text key room absent fresh_ls fresh_ns small =
      let v : Value = record tmp { type = lt_string; v = ls } in
      let (s', run, is) = insert_table-Inserted (allocated s ls ns text) k v quiet key room in
      (
        s',
        rw (search_table-found s quiet k tmp, absent, run) refl,
        record {
          quiet = is.quiet;
          reads_as = λ q. is.reads_as q ∙ rw absent refl;
          holds = allocated-HoldsText s s' k v ls ns text is small;
          others = allocated-Owns s s' k v ls ns text is fresh_ls fresh_ns;
          apart = λ q b u owns. (
            (λ e. cc (ap s.lstrings e, fresh_ls, owns.here)),
            λ e. cc (ap s.slots e, fresh_ns, owns.there),
          );
          at_slot = refl;
          extends = allocated-Extends s s' k v ls ns text is fresh_ls fresh_ns;
        },
      )
