-- ===== src/Keys.antt =====
-- table::size and table::keys of lighttable.cpp. `vv` is the array that `keys` fills, as far as it
-- is filled; `map == NULL` holds only of a table that is being deleted.
pub mod Listed
pub mod Found
use lighttable.Prelude.{
  ℕ, ◌+◌, ◌-◌, ◌*◌, ◌%◌, ◌^◌, Bool, true, false, Option, none, some, List, [], ◌∷◌, ◌++◌, leb,
  if◌then◌else◌, length,
}
use lighttable.Prelude.Word.{to_int, to_size}
use lighttable.Struct.{TableKey}
use lighttable.Lmap.{Node, NodeKey, strkey, numkey, get_size, get_data}
use lighttable.State.{fault, wild_access, Method, pure, ◌>>=◌, ◌>>◌}
use lighttable.Table.{max_hash_depth, grab_map, release_map}

unfoldable pub size : Method ℕ
size = do
  m ← grab_map
  let s = to_size (to_int (get_size m * max_hash_depth))
  release_map m
  pure s

-- `vv[record_index]`, by `key_type`.
unfoldable pub filled : NodeKey → ℕ → TableKey
filled (strkey s) type = record { type = type; key = some s.buf; sz_idx = to_size s.sz }
filled (numkey i) type = record { type = type; key = none; sz_idx = to_size i }

-- The inner loop, and whether it returned from the method; `limit` is `cap - 1`.
unfoldable pub keys_chain : ℕ → List Node → List TableKey → List TableKey × Bool
keys_chain limit [] vv = (vv, false)
keys_chain limit (n ∷ c) vv =
    let rest = keys_chain limit c (vv ++ filled n.key n.v.type ∷ []) in
    if leb limit (length vv) then (vv, true) else rest

unfoldable pub keys_buckets : ℕ → List (List Node) → List TableKey → List TableKey
keys_buckets limit [] vv = vv
keys_buckets limit (c ∷ cs) vv =
    let r = keys_chain limit c vv in
    let rest = keys_buckets limit cs r.0 in if r.1 then r.0 else rest

-- The array has room for `cap` keys: a write of one more is a write past its end.
abbrev pub within : ℕ → List TableKey → Method (List TableKey)
within cap vv = if leb (length vv) cap then pure vv else (λ s. fault wild_access)

-- `cap - 1` of a `size_t`.
abbrev pub limit_of : ℕ → ℕ
limit_of cap = (cap + 2 ^ 64 - 1) % 2 ^ 64

unfoldable pub keys : ℕ → Method (List TableKey)
keys cap = do
  m ← grab_map
  let vv = keys_buckets (limit_of cap) (get_data m) []
  release_map m
  within cap vv
