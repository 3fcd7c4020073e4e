-- ===== src/Serialize/Tree.antt =====
-- Tables as trees: what a table holds, with the tables below it, and how serialize of
-- lighttable.cpp is to print it.
use lighttable.Prelude.{
  ℕ, suc, ◌-◌, ◌*◌, ◌≡◌, ◌<◌, Option, none, some, List, [], ◌∷◌, ◌++◌, take, length,
}
use lighttable.Prelude.Word.{to_int, IsInt}
use lighttable.Struct.{
  Bytes, Value, TableKey, StringSlot, b_of, lt_number, lt_boolean, lt_ud, lt_string,
}
use lighttable.State.{Ptr, Table}
use lighttable.Lmap.Valid.{view}
use lighttable.Table.{max_hash_depth}
use lighttable.Table.Valid.{IsTable}
use lighttable.Keys.Found.{listed_key}
use lighttable.Keys.Listed.{all_keys}
use lighttable.World.{Memory}
use lighttable.Serialize.{Printf, c_string, show_boolean, temp_size}
use Prim.Native.Nat.{max}

mutual
  pub data Tree : Type 0 where
    number : ℕ → Tree
    boolean : ℕ → Tree
    text : Bytes → Tree
    table : Entries → Tree

  pub data Entries : Type 0 where
    nil : Entries
    entry : TableKey → Tree → Entries → Entries

unfoldable mutual
  pub depth : Tree → ℕ
  depth (number d) = 0
  depth (boolean b) = 0
  depth (text t) = 0
  depth (table es) = suc (depth_entries es)

  pub depth_entries : Entries → ℕ
  depth_entries nil = 0
  depth_entries (entry k v es) = max (depth v) (depth_entries es)

module _ (printf : Printf) where
  -- How the key is printed.
  abbrev pub shown_key : Option Bytes → ℕ → Bytes
  shown_key none sz_idx = b'[' ∷ b'"' ∷ printf.show_int (to_int sz_idx) ++ b'"' ∷ b']' ∷ b'=' ∷ []
  shown_key (some key) sz_idx = b'[' ∷ b'"' ∷ c_string key ++ b'"' ∷ b']' ∷ b' ' ∷ b'=' ∷ b' ' ∷ []

  unfoldable mutual
    pub shown : Tree → Bytes
    shown (number d) = printf.show_double d
    shown (boolean b) = show_boolean b
    shown (text t) = b'"' ∷ t ++ b'"' ∷ []
    shown (table es) = b'{' ∷ shown_entries es ++ b'}' ∷ []

    pub shown_entries : Entries → Bytes
    shown_entries nil = []
    shown_entries (entry k v es) =
        shown_key k.key k.sz_idx ++ (shown v ++ b',' ∷ b'\n' ∷ shown_entries es)

-- What stands under a listed key of the table.
pub record Under (t : Table) (k : TableKey) (type : ℕ) : Type 0 where
  pub value : Value
  pub there : view t.map (listed_key k) ≡ some value
  pub value_type : value.type ≡ type
  pub key_type : k.type ≡ type

-- The string that a value points to, and its text.
pub record HasText (m : Memory) (p : Ptr) (text : Bytes) : Type 0 where
  pub slot : Ptr
  pub content : StringSlot
  pub here : m.lstrings p ≡ some (record { lock = 0; slot = slot })
  pub there : m.slots slot ≡ some content
  pub once : content.ref ≡ 1
  pub reads_as : c_string content.buf ≡ text

pub record Stands (m : Memory) (p : Ptr) : Type 0 where
  pub this : Table
  pub there : m.tables p ≡ some this
  pub quiet : IsTable this
  pub small : IsInt (this.map.size * max_hash_depth)

-- The entries that `keys` lists, with the room that `size` returns.
abbrev pub listed_of : Table → List TableKey
listed_of t = take (t.map.size * 7 - 1) (all_keys t.map.buckets)

module _ (printf : Printf) (m : Memory) where
  unfoldable mutual
    -- A value of the table `t` under the key.
    pub IsValue : Table → TableKey → Tree → Type 0
    IsValue t k (number d) =
        (u : Under t k lt_number) × (u.value.v ≡ d) × (length (printf.show_double d) < temp_size)
    IsValue t k (boolean b) = (u : Under t k lt_boolean) × (b_of u.value.v ≡ b)
    IsValue t k (text s) =
        (u : Under t k lt_string) × HasText m u.value.v s
        × (length (shown printf (text s)) < temp_size)
    IsValue t k (table es) =
        (u : Under t k lt_ud) × (st : Stands m u.value.v) × AreValues st.this (listed_of st.this) es

    -- The keys of the table stand over these values, and have room in `temp`.
    pub AreValues : Table → List TableKey → Entries → Type 0
    AreValues t [] nil = Unit
    AreValues t [] (entry k v es) = ⊥
    AreValues t (k ∷ ks) nil = ⊥
    AreValues t (k ∷ ks) (entry k' v es) =
        (k ≡ k')
        × (length (shown_key printf k'.key k'.sz_idx) < temp_size)
        × IsValue t k' v
        × AreValues t ks es

  -- At the address stands a table with these entries.
  abbrev pub IsTree : Ptr → Entries → Type 0
  IsTree p es = (st : Stands m p) × AreValues st.this (listed_of st.this) es
