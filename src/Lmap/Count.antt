-- ===== src/Lmap/Count.antt =====
-- The results of _insert_value in lmap.cpp: the type, `depth` and `index`.
use lighttable.Prelude.{
  ℕ, zero, suc, ◌+◌, ◌≡◌, ◌≢◌, ◌<◌, none, List, [], ◌∷◌, arith, length, get_or, set,
}
use lighttable.Struct.{Key, Value}
use lighttable.Util.{hash}
use lighttable.Lmap.{Node, Lmap, insert_chain, insert_value, chain_of}
use lighttable.Lmap.Chain.{type_of, insert_chain-type, insert_chain-added}
use lighttable.Lmap.Valid.{IsValid, view, hash-lt-width}

-- The nodes of all chains.
unfoldable pub entries : List (List Node) → ℕ
entries [] = 0
entries (c ∷ cs) = length c + entries cs

entries-set :
    (cs : List (List Node)) (i : ℕ) (c : List Node)
    → i < length cs
    → entries (set cs i c) + length (get_or cs i []) ≡ entries cs + length c
unfolding entries
entries-set [] i c h = elim h [ ]
entries-set (d ∷ cs) zero c h = omega arith
entries-set (d ∷ cs) (suc i) c h = omega (arith, entries-set cs i c (omega arith))

-- `index` is the number of entries.
abbrev pub IsCounted : Lmap → Type 0
IsCounted m = m.index ≡ entries m.buckets

module _ {m : Lmap} (valid : IsValid m) (k : Key) (v : Value) (d : ℕ) where
  -- The insertion returns the type that the key had.
  pub insert_value-type : (insert_value m k v d).0 ≡ type_of (view m k)
  unfolding insert_value view
  insert_value-type = insert_chain-type k v (chain_of m k) d

  -- A new key walks the whole chain, and one that is there stops before its end.
  pub insert_value-depth :
      (view m k ≡ none → (insert_value m k v d).1 ≡ d + length (chain_of m k))
      × (view m k ≢ none → (insert_value m k v d).1 < d + length (chain_of m k))
  unfolding insert_value view
  insert_value-depth =
      let (_, new, old) = insert_chain-added k v (chain_of m k) d in
      (λ h. (new h).1, λ h. (old h).1)

  -- If index is the number of entries of a valid map, it is so again after _insert_value.
  pub insert_value-IsCounted : IsCounted m → IsCounted (insert_value m k v d).2
  unfolding insert_value
  insert_value-IsCounted h =
      let (grown, _, _) = insert_chain-added k v (chain_of m k) d in
      let s =
        entries-set m.buckets (hash k m.size) (insert_chain k v (chain_of m k) d).chain
          (hash-lt-width valid k) in
      omega arith
