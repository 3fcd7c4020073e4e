-- ===== src/Table/Read.antt =====
-- get_type and the getters of lighttable.cpp.
use lighttable.Prelude.{
  ℕ, ◌≡◌, refl, true, ◌||◌, Option, none, some, arith, ◌==◌, if◌then◌else◌, ap, ◌∙◌, Bool-cases,
  inl, inr,
}
use lighttable.Struct.{Key, Value, b_of, lt_nil, lt_number, lt_boolean, lt_ud}
use lighttable.Lmap.{Lmap, search}
use lighttable.Lmap.Valid.{view}
use lighttable.State.{State, Run, ok, fault, assertion_failed, ◌>>◌, assert, pure, Method}
use lighttable.Table.{search_table, get_type, get_number, get_boolean, get_ud}
use lighttable.Table.Valid.{IsTable, reads, search_table-ok}

-- What a search finds, or the caller's `tmp` with its type set.
abbrev pub found : Option Value → Value → Value
found (some v) tmp = v
found none tmp = record tmp { type = lt_nil }

-- The three setters and getters whose values lie in the union itself.
pub data Kind : Type 0 where
  number boolean ud : Kind

abbrev pub tag : Kind → ℕ
tag number = lt_number
tag boolean = lt_boolean
tag ud = lt_ud

abbrev pub get : Kind → Key → Value → Method ℕ
get number = get_number
get boolean = get_boolean
get ud = get_ud

-- What a getter makes of the bytes of the union.
abbrev pub as_read : Kind → ℕ → ℕ
as_read number v = v
as_read boolean v = b_of v
as_read ud v = v

-- A value taken out of an entry if the entry has no type, or the one that is wanted.
unfoldable pub typed : State → Value → ℕ → (ℕ → ℕ) → Run ℕ
typed s r wanted value =
    if r.type == lt_nil || r.type == wanted then ok (value r.v) s else fault assertion_failed

typed_lem :
    (s : State) (r : Value) (wanted : ℕ) (value : ℕ → ℕ)
    → (assert (r.type == lt_nil || r.type == wanted) >> pure (value r.v)) s ≡ typed s r wanted value
unfolding typed
typed_lem s r wanted value = elim (Bool-cases (r.type == lt_nil || r.type == wanted)) [
  | inl ok_type ↦ rw ok_type refl
  | inr other ↦ rw other refl
]

pub typed-ok :
    (s : State) (r : Value) (wanted : ℕ) (value : ℕ → ℕ)
    → r.type ≡ wanted
    → typed s r wanted value ≡ ok (value r.v) s
unfolding typed
typed-ok s r wanted value e =
    let t : (r.type == lt_nil || r.type == wanted) ≡ true = ground arith in rw t refl

search-found : (m : Lmap) (k : Key) (tmp : Value) → search m k tmp ≡ found (view m k) tmp
unfolding search view
search-found m k tmp = ground arith

module _ (s : State) (quiet : IsTable s.table) (k : Key) (tmp : Value) where
  pub search_table-found : search_table k tmp s ≡ ok (found (reads s k) tmp) s
  search_table-found =
      search_table-ok s quiet k tmp ∙ ap (λ v. ok v s) (search-found s.table.map k tmp)

  -- `get_type` returns the type and the bytes of the entry, or the type nil.
  pub get_type-found :
      get_type k tmp s ≡ ok ((found (reads s k) tmp).type, (found (reads s k) tmp).v) s
  unfolding get_type
  get_type-found = rw search_table-found refl

  -- On a table that no method works on, get_number, get_boolean and get_ud leave the state as it
  -- was; they return the bytes of the key's entry if it has their type (of a boolean the lower 32
  -- bits), the bytes that the stack happened to hold if there is no entry, and fail their assertion
  -- if the entry has another type.
  pub get-typed :
      (kind : Kind) → get kind k tmp s ≡ typed s (found (reads s k) tmp) (tag kind) (as_read kind)
  unfolding get_number get_boolean get_ud
  get-typed number = rw search_table-found (typed_lem s (found (reads s k) tmp) lt_number (λ v. v))
  get-typed boolean = rw search_table-found (typed_lem s (found (reads s k) tmp) lt_boolean b_of)
  get-typed ud = rw search_table-found (typed_lem s (found (reads s k) tmp) lt_ud (λ v. v))
