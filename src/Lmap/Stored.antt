-- ===== src/Lmap/Stored.antt =====
-- _is_in_hash and _new_node of lmap.cpp: when a stored key is the one that is asked for.
use lighttable.Prelude.{
  ◌≡◌, refl, ◌↔◌, Bool, true, false, [], ◌∷◌, arith, ◌==◌, length, take-length-append, ap, ◌∙◌,
}
use lighttable.Prelude.Word.{IsInt, to_size-to_int}
use lighttable.Struct.{Key, name, index}
use lighttable.Util.{same_bytes, new_string}
use lighttable.Util.Hash.{same_bytes_iff, cmp_string-new_string}
use lighttable.Lmap.{Node, node_key, key_of, matches, is_in_hash}

-- Keys that `sz` and `numkey`, both of type `int`, can hold.
abbrev pub IsKey : Key → Type 0
IsKey (name text) = IsInt (length text)
IsKey (index num) = IsInt num

unfoldable pub same_key : Key → Key → Bool
unfolding same_bytes
same_key (name a) (name b) = same_bytes a b
same_key (name a) (index j) = false
same_key (index i) (name b) = false
same_key (index i) (index j) = i == j

pub same_key_iff : (a b : Key) → (same_key a b ≡ true) ↔ (a ≡ b)
unfolding same_key
same_key_iff (name a) (name b) = ground (arith, same_bytes_iff a b)
same_key_iff (name a) (index j) = ground arith
same_key_iff (index i) (name b) = ground arith
same_key_iff (index i) (index j) = ground arith

-- A key survives storage.
pub key_of-node_key : (k : Key) → IsKey k → key_of (node_key k) ≡ k
unfolding key_of node_key new_string
key_of-node_key (name text) h =
    rw (to_size-to_int (length text) h) (ap name (take-length-append text (0 ∷ [])))
key_of-node_key (index num) h = ap index (to_size-to_int num h)

pub matches-node_key : (q k : Key) → IsKey k → matches q (node_key k) ≡ same_key q k
unfolding matches node_key same_key
matches-node_key (name a) (name b) h =
    ground (arith, cmp_string-new_string b a h, same_bytes_iff a b)
matches-node_key (name a) (index j) h = refl
matches-node_key (index i) (name b) h = refl
matches-node_key (index i) (index j) h = ground (arith, to_size-to_int j h)

-- A node whose key was stored from a valid one, and whose value has one reference.
pub record IsNode (n : Node) : Type 0 where
  pub valid : IsKey (key_of n.key)
  pub stored : n.key ≡ node_key (key_of n.key)
  pub held : n.v.ref ≡ 1

pub is_in_hash-same_key :
    (q : Key) {n : Node} → IsNode n → is_in_hash q n ≡ same_key q (key_of n.key)
unfolding is_in_hash
is_in_hash-same_key q {n} h = ap (matches q) h.stored ∙ matches-node_key q _ h.valid
