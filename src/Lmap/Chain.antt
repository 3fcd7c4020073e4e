-- ===== src/Lmap/Chain.antt =====
-- The loops over one chain in lmap.cpp.
use lighttable.Prelude.{
  ℕ, ◌+◌, ◌≡◌, refl, ◌≢◌, ◌<◌, true, false, Option, none, some, List, [], ◌∷◌, arith, length,
  Bool-cases, inl, inr, if◌then◌else◌,
}
use lighttable.Struct.{Key, Value, lt_nil}
use lighttable.Util.{hash}
use lighttable.Lmap.{Node, key_of, is_in_hash, find, insert_chain}
use lighttable.Lmap.Stored.{
  IsKey, same_key, same_key_iff, IsNode, is_in_hash-same_key, key_of-node_key, matches-node_key,
}

-- The nodes of slot `i` in a map of `size` slots: each belongs there, and no key occurs twice.
abbrev pub IsChain : ℕ → ℕ → List Node → Type 0
IsChain size i [] = Unit {0}
IsChain size i (n ∷ c) =
    IsNode n × (hash (key_of n.key) size ≡ i) × (find (key_of n.key) c ≡ none) × IsChain size i c

-- What a key holds after `insert` has put `v` under it.
unfoldable pub replaced : Option Value → Value → Value
replaced none v = record v { ref = 1 }
replaced (some old) v = record old { v = v.v }

unfoldable pub type_of : Option Value → ℕ
type_of none = lt_nil
type_of (some v) = v.type

-- A key is found in no slot but its own.
pub find-none :
    (size i : ℕ) (q : Key) (c : List Node) → IsChain size i c → hash q size ≢ i → find q c ≡ none
unfolding find
find-none size i q [] h ne = refl
find-none size i q (n ∷ c) (is, at, once, rest) ne =
    ground
      (arith, is_in_hash-same_key q is, same_key_iff q (key_of n.key), find-none size i q c rest ne)

-- A stored key matches two keys only if they are one.
same_of_match :
    (q k : Key) {n : Node} → IsNode n → is_in_hash k n ≡ true → same_key q k ≡ is_in_hash q n
same_of_match q k {n} is hit = ground (
  arith,
  is_in_hash-same_key q is,
  is_in_hash-same_key k is,
  same_key_iff q (key_of n.key),
  same_key_iff k (key_of n.key),
  same_key_iff q k,
)

unmatched :
    (q k : Key) {n : Node}
    → IsNode n
    → is_in_hash k n ≡ false
    → same_key q k ≡ true
    → is_in_hash q n ≡ false
unmatched q k {n} is miss e = let same = (same_key_iff q k).0 e in rw same miss

module _ (size i : ℕ) (k : Key) (v : Value) (key : IsKey k) where
  -- After an insertion the key reads as the new value, and every other as before.
  pub find-insert_chain :
      (q : Key) (c : List Node) (d : ℕ)
      → IsChain size i c
      → find q (insert_chain k v c d).chain
        ≡ (if same_key q k then some (replaced (find k c) v) else find q c)
  unfolding find insert_chain replaced is_in_hash
  find-insert_chain q [] d h = rw (matches-node_key q k key) refl
  find-insert_chain q (n ∷ c) d (is, at, once, rest) = elim (Bool-cases (is_in_hash k n)) [
    | inl hit ↦ rw hit (ground (arith, same_of_match q k is hit))
    | inr miss ↦ rw miss (ground (arith, unmatched q k is miss, find-insert_chain q c (d + 1) rest))
  ]

  once_more :
      (n : Node) (c : List Node) (d : ℕ)
      → IsNode n
      → IsChain size i c
      → is_in_hash k n ≡ false
      → find (key_of n.key) c ≡ none
      → find (key_of n.key) (insert_chain k v c (d + 1)).chain ≡ none
  once_more n c d is rest miss once = ground (
    arith,
    find-insert_chain (key_of n.key) c (d + 1) rest,
    is_in_hash-same_key k is,
    same_key_iff k (key_of n.key),
    same_key_iff (key_of n.key) k,
  )

  -- The chain stays well formed.
  pub insert_chain-IsChain :
      (c : List Node) (d : ℕ)
      → hash k size ≡ i
      → IsChain size i c
      → IsChain size i (insert_chain k v c d).chain
  unfolding insert_chain find
  insert_chain-IsChain [] d at h = (
    record {
      valid = rw (key_of-node_key k key) key;
      stored = rw (key_of-node_key k key);
      held = refl;
    },
    rw (key_of-node_key k key) at,
    refl,
    tt,
  )
  insert_chain-IsChain (n ∷ c) d at (is, here, once, rest) = elim (Bool-cases (is_in_hash k n)) [
    | inl hit ↦
        rw hit (record { valid = is.valid; stored = is.stored; held = is.held }, here, once, rest)
    | inr miss ↦
        rw miss
          (is, here, once_more n c d is rest miss once, insert_chain-IsChain c (d + 1) at rest)
  ]

module _ (k : Key) (v : Value) where
  -- What an insertion returns: the type that the key had, how far it walked, and the new node.
  pub insert_chain-type : (c : List Node) (d : ℕ) → (insert_chain k v c d).type ≡ type_of (find k c)
  unfolding insert_chain find type_of
  insert_chain-type [] d = refl
  insert_chain-type (n ∷ c) d = ground (arith, insert_chain-type c (d + 1))

  pub insert_chain-added :
      (c : List Node) (d : ℕ)
      → ((insert_chain k v c d).added + length c ≡ length (insert_chain k v c d).chain)
        × (find k c ≡ none
            → ((insert_chain k v c d).added ≡ 1) × ((insert_chain k v c d).depth ≡ d + length c))
        × (find k c ≢ none
            → ((insert_chain k v c d).added ≡ 0) × ((insert_chain k v c d).depth < d + length c))
  unfolding insert_chain find
  insert_chain-added [] d = ground arith
  insert_chain-added (n ∷ c) d = elim (Bool-cases (is_in_hash k n)) [
    | inl hit ↦ rw hit (ground arith)
    | inr miss ↦ rw miss (ground (arith, insert_chain-added c (d + 1)))
  ]
