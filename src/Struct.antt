-- ===== src/Struct.antt =====
-- lstruct.h: the type tags, values and strings of a table, and the keys that its methods take.
use lighttable.Prelude.{ℕ, ◌+◌, ◌*◌, ◌/◌, ◌^◌, List, Option, none, some, take}
use lighttable.Prelude.Word.{to_int}

abbrev pub lt_nil : ℕ
lt_nil = 0

abbrev pub lt_number : ℕ
lt_number = 1

abbrev pub lt_boolean : ℕ
lt_boolean = 2

abbrev pub lt_ud : ℕ
lt_ud = 3

abbrev pub lt_string : ℕ
lt_string = 4

abbrev pub Bytes : Type 0
Bytes = List ℕ

-- The two arguments `const char *key, size_t sz_idx`: the `sz_idx` bytes at `key`, or the number
-- `sz_idx` where `key` is NULL.
pub data Key : Type 0 where
  name : Bytes → Key
  index : ℕ → Key

-- `struct string_slot`; `buf` holds the text and its final zero byte, `ref` and `sz` are `int`s.
pub record StringSlot : Type 0 where
  pub ref : ℕ
  pub sz : ℕ
  pub buf : Bytes

-- `struct value`; `v` is the eight bytes of the union as one number: the bits of the double, the
-- user data, the address of the `lstring`, or a `b` in the low four bytes.
pub record Value : Type 0 where
  pub ref : ℕ
  pub type : ℕ
  pub v : ℕ

-- `tmp.v.b = b`: the upper half of the union stays.
abbrev pub with_b : ℕ → ℕ → ℕ
with_b v b = v / 2 ^ 32 * 2 ^ 32 + to_int b

-- Reading `v.b`.
abbrev pub b_of : ℕ → ℕ
b_of v = to_int v

-- `struct table_key`, as `keys` fills it: `key` is the text behind the pointer, none for NULL.
pub record TableKey : Type 0 where
  pub type : ℕ
  pub key : Option Bytes
  pub sz_idx : ℕ

-- What a method reads of `const char *key, size_t sz_idx`.
abbrev pub key_of : Option Bytes → ℕ → Key
key_of none sz_idx = Key.index sz_idx
key_of (some text) sz_idx = Key.name (take sz_idx text)
