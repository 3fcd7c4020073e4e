-- ===== src/Lmap/Delete.antt =====
-- _delete_without_data and _copy_map of lmap.cpp: which values are freed, and is_over_half.
use lighttable.Prelude.{
  ℕ, ◌+◌, ◌-◌, ◌≡◌, refl, ◌↔◌, ◌≤◌, ◌<◌, true, Option, List, [], ◌∷◌, ◌++◌, arith, ◌∙◌, get_or, leb,
  if◌then◌else◌,
}
use native.Mathlib.Nat.{le-div_iff_mul-le}
use lighttable.Prelude.Word.{IsInt}
use lighttable.Struct.{Key, Value}
use lighttable.Util.{hash}
use lighttable.Lmap.{
  Node, Lmap, new_lmap, share, share_buckets, clear_chain, delete_without_data, copy_map, find,
  is_over_half,
}
use lighttable.Lmap.Chain.{IsChain}
use lighttable.Lmap.Valid.{AreChains, IsValid, view, new_lmap-IsValid}
use lighttable.Lmap.Copy.{Keeps, copy_buckets-view}

clear_chain-share : (size i : ℕ) (c : List Node) → IsChain size i c → clear_chain (share c) ≡ []
unfolding clear_chain share
clear_chain-share size i [] h = refl
clear_chain-share size i (n ∷ c) (is, _, _, rest) =
    ground (arith, is.held, clear_chain-share size i c rest)

-- Once its values are shared, a map is deleted without freeing any of them.
pub delete-share_buckets :
    (size i : ℕ) (cs : List (List Node))
    → AreChains size i cs
    → delete_without_data (share_buckets cs) ≡ []
unfolding delete_without_data share_buckets
delete-share_buckets size i [] h = refl
delete-share_buckets size i (c ∷ cs) (is, rest) =
    rw (clear_chain-share size i c is, delete-share_buckets size (i + 1) cs rest) refl

-- The values of a chain, and of all chains.
unfoldable pub chain_values : List Node → List Value
chain_values [] = []
chain_values (n ∷ c) = n.v ∷ chain_values c

unfoldable pub values : List (List Node) → List Value
values [] = []
values (c ∷ cs) = chain_values c ++ values cs

clear_chain-chain_values :
    (size i : ℕ) (c : List Node) → IsChain size i c → clear_chain c ≡ chain_values c
unfolding clear_chain chain_values
clear_chain-chain_values size i [] h = refl
clear_chain-chain_values size i (n ∷ c) (is, _, _, rest) =
    ground (arith, is.held, clear_chain-chain_values size i c rest)

delete-values :
    (size i : ℕ) (cs : List (List Node)) → AreChains size i cs → delete_without_data cs ≡ values cs
unfolding delete_without_data values
delete-values size i [] h = refl
delete-values size i (c ∷ cs) (is, rest) =
    rw (clear_chain-chain_values size i c is, delete-values size (i + 1) cs rest) refl

-- A valid map that is deleted hands each of its values to `_clear_value`, once.
pub delete-all : {m : Lmap} → IsValid m → delete_without_data m.buckets ≡ values m.buckets
delete-all {m} valid = delete-values m.size 0 m.buckets valid.chains

module _ {m : Lmap} (valid : IsValid m) (n : ℕ) (pos : 0 < n) (small : IsInt n) where
  first_slot :
      (q : Key) (other : Option Value)
      → (if leb 0 (hash q m.size) then find q (get_or m.buckets (hash q m.size - 0) []) else other)
        ≡ view m q
  unfolding view
  first_slot q other =
      let e : hash q m.size - 0 ≡ hash q m.size = omega arith in
      let t : leb 0 (hash q m.size) ≡ true = ground arith in rw (e, t) refl

  -- The copy of a valid map into a new one, of any size from 1 that an int can hold, is valid, has
  -- the new size and holds under each key what the old map holds, and the old map, deleted after
  -- the copy, frees no value.
  pub copy_map-view :
      IsValid (copy_map (new_lmap n) m).0
      × ((copy_map (new_lmap n) m).0.size ≡ n)
      × ((q : Key) → view (copy_map (new_lmap n) m).0 q ≡ view m q)
      × (delete_without_data (copy_map (new_lmap n) m).1.buckets ≡ [])
  unfolding copy_map new_lmap
  copy_map-view =
      let (fresh, none_there) = new_lmap-IsValid n pos small in
      let (v, keeps, r) =
        copy_buckets-view m.size 0 m.buckets (new_lmap n) fresh valid.chains
          (λ q _. none_there q) in
      (
        v,
        keeps.size ∙ omega arith,
        λ q. r q ∙ first_slot q (view (new_lmap n) q),
        delete-share_buckets m.size 0 m.buckets valid.chains,
      )

  -- The table's reference to the map is there from the start, and the count of entries is 0.
  pub copy_map-Keeps : Keeps (new_lmap n) (copy_map (new_lmap n) m).0
  unfolding copy_map
  copy_map-Keeps =
      let (fresh, none_there) = new_lmap-IsValid n pos small in
      (copy_buckets-view m.size 0 m.buckets (new_lmap n) fresh valid.chains (λ q _. none_there q)).1

-- For a map with at least one slot, is_over_half holds exactly if index is at least the number of
-- slots.
pub is_over_half_iff : (m : Lmap) → 0 < m.size → (is_over_half m ≡ true) ↔ (m.size ≤ m.index)
unfolding is_over_half
is_over_half_iff m pos =
    let (up, down) = le-div_iff_mul-le {k = m.size} {x = 1} {y = m.index} pos in
    (λ h. omega (arith, up (ground arith)), λ h. ground (arith, down (omega arith)))
