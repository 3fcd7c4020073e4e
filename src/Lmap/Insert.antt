-- ===== src/Lmap/Insert.antt =====
-- _insert_value of lmap.cpp, and _search after it.
use lighttable.Prelude.{ℕ, ◌≡◌, refl, some, [], arith, if◌then◌else◌, get_or-set}
use lighttable.Struct.{Key, Value}
use lighttable.Util.{hash}
use lighttable.Lmap.{Lmap, insert_chain, insert_value, chain_of}
use lighttable.Lmap.Stored.{IsKey, same_key, same_key_iff}
use lighttable.Lmap.Chain.{replaced, find-insert_chain, insert_chain-IsChain}
use lighttable.Lmap.Valid.{IsValid, view, set-IsValid, chain_of-IsChain, hash-lt-width}

module _ {m : Lmap} (valid : IsValid m) (k : Key) (v : Value) (key : IsKey k) (d : ℕ) where
  -- _insert_value keeps a valid map valid, for a key that an int can hold: each node stands in the
  -- slot of its key, no key occurs twice, each key is stored as _new_node stores it, and each value
  -- has one reference.
  pub insert_value-IsValid : IsValid (insert_value m k v d).2
  unfolding insert_value
  insert_value-IsValid =
      let h = hash k m.size in
      set-IsValid valid h _ _
        (insert_chain-IsChain m.size h k v key (chain_of m k) d refl (chain_of-IsChain valid k))

  -- After _insert_value in a valid map, for a key that an int can hold, that key reads as the new
  -- value, with the type and references of the old one where there was one and one reference where
  -- there was none, and every other key reads as before.
  pub view-insert_value :
      (q : Key)
      → view (insert_value m k v d).2 q
        ≡ (if same_key q k then some (replaced (view m k) v) else view m q)
  unfolding insert_value view
  view-insert_value q =
      let h = hash k m.size in
      rw
        (get_or-set m.buckets h (hash q m.size) (insert_chain k v (chain_of m k) d).chain []
          (hash-lt-width valid k))
        (ground (
          arith,
          same_key_iff q k,
          find-insert_chain m.size h k v key q (chain_of m k) d (chain_of-IsChain valid k),
        ))
