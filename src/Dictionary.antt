-- ===== src/Dictionary.antt =====
-- What a table of lighttable.cpp promises: a dictionary from keys to numbers, booleans, user data
-- and texts, which the setters and getters write and read.
pub mod Plain
pub mod Texts
pub mod Refines
pub mod Extends
pub mod Clear
pub mod Entries
pub mod Release
use lighttable.Prelude.{ℕ, ◌≡◌, ◌≢◌, ◌<◌, ◌^◌, Option, none, some, if◌then◌else◌, length}
use lighttable.Prelude.Word.{IsInt}
use lighttable.Struct.{Bytes, Key, StringSlot, Value, lt_string}
use lighttable.Lmap.Stored.{same_key}
use lighttable.State.{Ptr, State, Method}
use lighttable.Table.Valid.{IsTable, reads}
use lighttable.Table.Read.{Kind, tag, as_read}
use lighttable.Table.Write.{put, kept}
use lighttable.Strings.{set_string}
use lighttable.Strings.Owned.{Owns}
use lighttable.Strings.Update.{HoldsText}

pub data Content : Type 0 where
  plain : Kind → ℕ → Content
  text : Bytes → Content

abbrev pub Contents : Type 0
Contents = Key → Option Content

-- The setters, with the addresses that `malloc` returns and what the stack holds.
abbrev pub set_content : Content → Key → Ptr → Ptr → Value → Method ℕ
set_content (plain kind w) k ls ns tmp = put kind k w tmp
set_content (text b) k ls ns tmp = set_string k b ls ns tmp

-- What is read back: of a boolean the lower 32 bits.
abbrev pub stored : Content → Content
stored (plain kind w) = plain kind (kept kind w)
stored (text b) = text b

abbrev pub insert : Key → Content → Contents → Contents
insert k c f q = if same_key q k then some c else f q

-- A key may be given what has the kind of its old content.
abbrev pub Suits : Option Content → Content → Type 0
Suits none c = Unit {0}
Suits (some (plain kind w)) (plain kind' w') = tag kind ≡ tag kind'
Suits (some (plain kind w)) (text b) = ⊥
Suits (some (text b)) (plain kind w) = ⊥
Suits (some (text b)) (text b') = Unit {0}

-- A text is one whose length an int can hold.
abbrev pub Fits : Content → Type 0
Fits (plain kind w) = Unit {0}
Fits (text b) = IsInt (length b)

-- An entry stands for a content.
abbrev pub Means : State → Option Content → Option Value → Type 0
Means s none none = Unit {0}
Means s none (some v) = ⊥
Means s (some c) none = ⊥
Means s (some (plain kind w)) (some v) = (v.type ≡ tag kind) × (as_read kind v.v ≡ w)
Means s (some (text b)) (some v) = (v.type ≡ lt_string) × HoldsText s v.v b

-- No two keys share an lstring or a slot.
abbrev pub Apart : State → Type 0
Apart s =
    (q q' : Key) (v v' : Value) (a a' : Ptr) (t t' : StringSlot)
    → q ≢ q'
    → reads s q ≡ some v
    → reads s q' ≡ some v'
    → v.type ≡ lt_string
    → v'.type ≡ lt_string
    → Owns s v.v a t
    → Owns s v'.v a' t'
    → (v.v ≢ v'.v) × (a ≢ a')

-- No method works on the table, every entry stands for what the dictionary has under the key, and
-- each text has an lstring and slot of its own.
pub record Represents (s : State) (f : Contents) : Type 0 where
  pub quiet : IsTable s.table
  pub means : (q : Key) → Means s (f q) (reads s q)
  pub apart : Apart s
