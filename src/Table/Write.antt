-- ===== src/Table/Write.antt =====
-- set_number, set_boolean and set_ud of lighttable.cpp, and the getters after them.
use lighttable.Prelude.{
  ℕ, ◌^◌, ◌≡◌, refl, ◌≢◌, ◌<◌, Option, none, some, arith, ap, ◌∙◌, inl, inr, ◌⊎◌, ◌==◌,
  if◌then◌else◌,
}
use lighttable.Prelude.Word.{to_int}
use lighttable.Struct.{Key, Value, with_b, lt_nil, lt_number, lt_boolean, lt_ud}
use lighttable.Lmap.Stored.{IsKey, same_key_iff}
use lighttable.Lmap.Chain.{replaced, type_of}
use lighttable.State.{State, ok, ◌>>◌, pure, Method, and_then}
use lighttable.Table.{refused, insert_table, set_number, set_boolean, set_ud}
use lighttable.Table.Valid.{IsTable, reads}
use lighttable.Table.Read.{
  Kind, number, boolean, ud, tag, get, as_read, found, typed, typed-ok, get-typed,
}
use lighttable.Table.Insert.{Inserted, insert_table-Inserted}

abbrev pub put : Kind → Key → ℕ → Value → Method ℕ
put number = set_number
put boolean = set_boolean
put ud = set_ud

-- The value that a setter builds on the stack.
abbrev pub built : Kind → ℕ → Value → Value
built number w tmp = record tmp { type = lt_number; v = w }
built boolean w tmp = record tmp { type = lt_boolean; v = with_b tmp.v w }
built ud w tmp = record tmp { type = lt_ud; v = w }

-- What a value looks like after it has been stored and read.
abbrev pub kept : Kind → ℕ → ℕ
kept number w = w
kept boolean w = to_int w
kept ud w = w

-- What a setter should return, by the entry that it finds.
abbrev pub outcome : Option Value → ℕ → ℕ
outcome none wanted = 0
outcome (some old) wanted = if old.type == lt_nil then 0 else (if old.type == wanted then 0 else 1)

refused-outcome :
    (old : Option Value) (wanted : ℕ) → refused (type_of old) wanted ≡ outcome old wanted
unfolding type_of
refused-outcome none wanted = ground arith
refused-outcome (some old) wanted = ground arith

pub outcome-fits :
    (old : Option Value) (kind : Kind)
    → (old ≡ none) ⊎ (type_of old ≡ tag kind)
    → outcome old (tag kind) ≡ 0
unfolding type_of
outcome-fits none kind h = refl
outcome-fits (some old) kind (inl h) = cc
outcome-fits (some old) kind (inr h) = ground arith

-- A setter that returns `code`, and writes `v` under the key.
abbrev pub Sets : Method ℕ → State → Key → ℕ → Value → Type 0
Sets method s k code v = (s' : State) × (method s ≡ ok code s') × Inserted s k v s'

-- Under the key stands the new value in place of the old.
pub reads-Inserted :
    {s s' : State} {k : Key} {v : Value}
    → Inserted s k v s'
    → reads s' k ≡ some (replaced (reads s k) v)
reads-Inserted {k} is = rw (is.reads_as k, (same_key_iff k k).1 refl) refl

pub fitting :
    (old : Option Value) (kind : Kind) (w : ℕ) (tmp : Value)
    → (old ≡ none) ⊎ (type_of old ≡ tag kind)
    → ((replaced old (built kind w tmp)).type ≡ tag kind)
      × (as_read kind (replaced old (built kind w tmp)).v ≡ kept kind w)
unfolding replaced type_of
fitting none number w tmp h = (refl, refl)
fitting none boolean w tmp h = (refl, omega arith)
fitting none ud w tmp h = (refl, refl)
fitting (some old) kind w tmp (inl h) = cc
fitting (some old) number w tmp (inr h) = (h, refl)
fitting (some old) boolean w tmp (inr h) = (h, omega arith)
fitting (some old) ud w tmp (inr h) = (h, refl)

put-insert :
    (kind : Kind) (k : Key) (w : ℕ) (tmp : Value) (s : State)
    → put kind k w tmp s
      ≡ and_then (insert_table k (built kind w tmp) s) (λ type. pure (refused type (tag kind)))
unfolding set_number set_boolean set_ud
put-insert number k w tmp s = refl
put-insert boolean k w tmp s = refl
put-insert ud k w tmp s = refl

module _ (s : State) (quiet : IsTable s.table) (k : Key) (key : IsKey k)
    (room : s.table.map.size < 2 ^ 30) (kind : Kind) (w : ℕ) (tmp : Value) where
  -- In a table that no method works on, with fewer than 2^30 slots, and for a key that an int can
  -- hold, each of set_number, set_boolean and set_ud returns 0 where the key has no entry, one
  -- without a type or one of the setter's type, and 1 otherwise, and in either case does to the
  -- table what _insert_table does with its value.
  pub put-Sets : Sets (put kind k w tmp) s k (outcome (reads s k) (tag kind)) (built kind w tmp)
  put-Sets =
      let (s', run, is) = insert_table-Inserted s k (built kind w tmp) quiet key room in
      (s', rw (put-insert kind k w tmp s, run, refused-outcome (reads s k) (tag kind)) refl, is)

  -- In a table that no method works on, with fewer than 2^30 slots, under a key that an int can
  -- hold and that has no entry or one of the setter's type: set_number, set_boolean and set_ud,
  -- each followed by its getter, give back what was set (a boolean as its 32 bits), and the rest of
  -- the table is as _insert_table leaves it.
  pub get-put :
      (tmp' : Value)
      → (reads s k ≡ none) ⊎ (type_of (reads s k) ≡ tag kind)
      → (s' : State) × ((put kind k w tmp >> get kind k tmp') s ≡ ok (kept kind w) s')
        × Inserted s k (built kind w tmp) s'
  get-put tmp' fits =
      let (s', run, is) = put-Sets in
      let (type, read) = fitting (reads s k) kind w tmp fits in
      let e : typed s' (found (reads s' k) tmp') (tag kind) (as_read kind) ≡ ok (kept kind w) s' =
        rw (reads-Inserted is) (
          typed-ok s' (replaced (reads s k) (built kind w tmp)) (tag kind) (as_read kind) type
          ∙ ap (λ v. ok v s') read) in
      (s', rw (run, get-typed s' is.quiet k tmp' kind) e, is)

  -- In a table that no method works on, with fewer than 2^30 slots, a setter called on a key (one
  -- that an int can hold) whose entry has another type returns 1, for failure, and yet leaves its
  -- bytes in the entry, under the old type.
  pub put-overwrites :
      (old : Value)
      → reads s k ≡ some old
      → old.type ≢ lt_nil
      → old.type ≢ tag kind
      → (s' : State) × (put kind k w tmp s ≡ ok 1 s')
        × (reads s' k ≡ some (record old { v = (built kind w tmp).v }))
  unfolding type_of replaced
  put-overwrites old there some_type other =
      let (s', run, is) = put-Sets in
      let e : outcome (reads s k) (tag kind) ≡ 1 = rw there (ground arith) in
      (s', rw e at run, rw (reads-Inserted is, there) refl)
