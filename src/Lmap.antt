-- ===== src/Lmap.antt =====
-- lmap.cpp: a hash map with chained buckets. A chain `struct node *` is the list of its nodes, and
-- `data` the list of the chains. `depth` and `index` count nodes in memory, so they cannot overflow.
-- The text behind `strkey` is owned by its node alone and is part of it.
pub mod Stored
pub mod Chain
pub mod Valid
pub mod Insert
pub mod Count
pub mod Copy
pub mod Delete
pub mod Nodes
use lighttable.Prelude.{
  ℕ, ◌+◌, ◌*◌, ◌/◌, Bool, true, false, Option, none, some, List, [], ◌∷◌, ◌++◌, leb, ◌==◌,
  if◌then◌else◌, get_or, set, replicate, take,
}
use lighttable.Prelude.Word.{to_int, to_size}
use lighttable.Struct.{Key, name, index, StringSlot, Value, lt_nil}
use lighttable.Util.{hash, cmp_string, new_string}

-- `key_type` with `strkey` or `numkey`, an `int`.
pub data NodeKey : Type 0 where
  strkey : StringSlot → NodeKey
  numkey : ℕ → NodeKey

pub record Node : Type 0 where
  pub key : NodeKey
  pub v : Value

pub record Lmap : Type 0 where
  pub ref : ℕ
  pub size : ℕ
  pub buckets : List (List Node)
  pub index : ℕ

abbrev pub get_ref : Lmap → ℕ
get_ref m = m.ref

abbrev pub get_size : Lmap → ℕ
get_size m = m.size

abbrev pub get_data : Lmap → List (List Node)
get_data m = m.buckets

abbrev pub set_ref : Lmap → ℕ → Lmap
set_ref m nr = record m { ref = nr }

unfoldable pub init_data : ℕ → List (List Node)
init_data n = replicate n []

unfoldable pub new_lmap : ℕ → Lmap
unfolding init_data
new_lmap n = record { ref = 1; size = to_int n; buckets = init_data n; index = 0 }

-- The key part of `_new_node`.
unfoldable pub node_key : Key → NodeKey
node_key (name text) = strkey (new_string text)
node_key (index num) = numkey (to_int num)

unfoldable pub new_node : Key → ℕ → Node
unfolding node_key
new_node k type = record { key = node_key k; v = record { ref = 0; type = type; v = 0 } }

unfoldable pub matches : Key → NodeKey → Bool
matches (name text) (strkey s) = cmp_string s text
matches (name text) (numkey i) = false
matches (index num) (strkey s) = false
matches (index num) (numkey i) = to_size i == num

unfoldable pub is_in_hash : Key → Node → Bool
unfolding matches
is_in_hash k n = matches k n.key

-- The chain `data[h]` of a key. An index out of range would be read outside the array:
-- `IsValid` rules it out.
abbrev pub chain_of : Lmap → Key → List Node
chain_of m k = get_or m.buckets (hash k m.size) []

-- The loop of `_search`: the value of the first node with the key.
unfoldable pub find : Key → List Node → Option Value
find k [] = none
find k (n ∷ c) = if is_in_hash k n then some n.v else find k c

-- `result` as the caller passes it, and as `_search` leaves it.
unfoldable pub search : Lmap → Key → Value → Value
unfolding find
search m k result = elim (find k (chain_of m k)) [
  | some v ↦ v
  | none ↦ record result { type = lt_nil }
]

-- What the loop of `_insert_value` leaves: the type returned, `depth`, the chain, and what is
-- added to `index`.
pub record Insertion : Type 0 where
  pub type : ℕ
  pub depth : ℕ
  pub chain : List Node
  pub added : ℕ

unfoldable pub insert_chain : Key → Value → List Node → ℕ → Insertion
unfolding new_node
insert_chain k v [] depth = record {
  type = lt_nil;
  depth = depth;
  chain = record (new_node k v.type) { v = record v { ref = 1 } } ∷ [];
  added = 1;
}
insert_chain k v (n ∷ c) depth =
    let rest = insert_chain k v c (depth + 1) in
    if is_in_hash k n
    then record {
      type = n.v.type;
      depth = depth;
      chain = record n { v = record n.v { v = v.v } } ∷ c;
      added = 0;
    }
    else record rest { chain = n ∷ rest.chain }

-- The type returned, `depth` and the map.
unfoldable pub insert_value : Lmap → Key → Value → ℕ → ℕ × ℕ × Lmap
unfolding insert_chain
insert_value m k v depth =
    let h = hash k m.size in
    let r = insert_chain k v (get_or m.buckets h []) depth in
    (r.type, r.depth, record m { buckets = set m.buckets h r.chain; index = m.index + r.added })

-- `key` and `sz` of `_insert_node`.
unfoldable pub key_of : NodeKey → Key
key_of (strkey k) = name (take (to_size k.sz) k.buf)
key_of (numkey i) = index (to_size i)

-- The node is new, the value is copied, and the chain is extended at its head. The new reference
-- that the source's value is given stands in `share`.
unfoldable pub insert_node : Lmap → Node → Lmap
unfolding key_of new_node
insert_node m n =
    let k = key_of n.key in
    let h = hash k m.size in
    let fresh = record (new_node k n.v.type) { v = n.v } in
    record m { buckets = set m.buckets h (fresh ∷ get_or m.buckets h []) }

-- `v->ref += 1`.
unfoldable pub share : List Node → List Node
share [] = []
share (n ∷ c) = record n { v = record n.v { ref = to_int (n.v.ref + 1) } } ∷ share c

unfoldable pub copy_chain : Lmap → List Node → Lmap
copy_chain m [] = m
copy_chain m (n ∷ c) = copy_chain (insert_node m n) c

unfoldable pub copy_buckets : Lmap → List (List Node) → Lmap
copy_buckets m [] = m
copy_buckets m (c ∷ cs) = copy_buckets (copy_chain m c) cs

unfoldable pub share_buckets : List (List Node) → List (List Node)
share_buckets [] = []
share_buckets (c ∷ cs) = share c ∷ share_buckets cs

-- The new map, and the old one with a reference more on each value.
unfoldable pub copy_map : Lmap → Lmap → Lmap × Lmap
copy_map m cm = (copy_buckets m cm.buckets, record cm { buckets = share_buckets cm.buckets })

-- The values that `_delete_without_data` hands to `_clear_value`, in order. The slots of keys are
-- values here, so that `free(n->strkey)` does nothing. The nodes and the map are freed with it, so
-- nothing else is left of them.
unfoldable pub clear_chain : List Node → List Value
clear_chain [] = []
clear_chain (n ∷ c) = let rest = clear_chain c in if n.v.ref == 1 then n.v ∷ rest else rest

unfoldable pub delete_without_data : List (List Node) → List Value
unfolding clear_chain
delete_without_data [] = []
delete_without_data (c ∷ cs) = clear_chain c ++ delete_without_data cs

-- `HALF` is 0.5, and `index / size` is a division of integers.
unfoldable pub is_over_half : Lmap → Bool
is_over_half m = leb 1 (2 * (m.index / m.size))
