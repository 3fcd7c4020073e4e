-- ===== src/Lmap/Valid.antt =====
-- What a map of lmap.cpp keeps true, and what it stands for: a function from keys to values.
use lighttable.Prelude.{
  ℕ, zero, suc, ◌+◌, ◌≡◌, refl, ◌<◌, Option, none, List, [], ◌∷◌, arith, length, get_or, set,
  replicate, length-replicate, get_or-replicate, length-set,
}
use mathlib.Core.Path.{subst}
use lighttable.Prelude.Word.{IsInt, to_int}
use lighttable.Struct.{Key, Value}
use lighttable.Util.{hash}
use lighttable.Util.Hash.{hash-lt}
use lighttable.Lmap.{Node, Lmap, new_lmap, find, chain_of}
use lighttable.Lmap.Chain.{IsChain}

-- Slot `i` and those after it.
abbrev pub AreChains : ℕ → ℕ → List (List Node) → Type 0
AreChains size i [] = Unit {0}
AreChains size i (c ∷ cs) = IsChain size i c × AreChains size (i + 1) cs

-- No bucket is missing, and each chain holds only what belongs there.
pub record IsValid (m : Lmap) : Type 0 where
  pub width : length m.buckets ≡ m.size
  pub pos : 0 < m.size
  pub small : IsInt m.size
  pub chains : AreChains m.size 0 m.buckets

unfoldable pub view : Lmap → Key → Option Value
view m k = find k (chain_of m k)

get_or-IsChain :
    (size i j : ℕ) (cs : List (List Node))
    → AreChains size i cs
    → IsChain size (i + j) (get_or cs j [])
get_or-IsChain size i j [] h = tt
get_or-IsChain size i zero (c ∷ cs) (is, rest) = let e : i + 0 ≡ i = omega arith in rw e is
get_or-IsChain size i (suc j) (c ∷ cs) (is, rest) =
    let e : i + suc j ≡ i + 1 + j = omega arith in rw e (get_or-IsChain size (i + 1) j cs rest)

set-AreChains :
    (size i j : ℕ) (cs : List (List Node)) (c : List Node)
    → AreChains size i cs
    → IsChain size (i + j) c
    → AreChains size i (set cs j c)
set-AreChains size i j [] c h is = tt
set-AreChains size i zero (_ ∷ cs) c (_, rest) is =
    let e : i + 0 ≡ i = omega arith in (rw e at is, rest)
set-AreChains size i (suc j) (d ∷ cs) c (here, rest) is =
    let e : i + suc j ≡ i + 1 + j = omega arith in
    (here, set-AreChains size (i + 1) j cs c rest (rw e at is))

replicate-AreChains : (size i n : ℕ) → AreChains size i (replicate n [])
replicate-AreChains size i zero = tt
replicate-AreChains size i (suc n) = (tt, replicate-AreChains size (i + 1) n)

module _ {m : Lmap} (valid : IsValid m) where
  pub hash-lt-width : (k : Key) → hash k m.size < length m.buckets
  hash-lt-width k = omega (arith, hash-lt k m.size valid.pos valid.small, valid.width)

  pub chain_of-IsChain : (k : Key) → IsChain m.size (hash k m.size) (chain_of m k)
  chain_of-IsChain k =
      let e : 0 + hash k m.size ≡ hash k m.size = omega arith in
      rw e at (get_or-IsChain m.size 0 (hash k m.size) m.buckets valid.chains)

  -- Validity after a write to one chain.
  pub set-IsValid :
      (h ix : ℕ) (c : List Node)
      → IsChain m.size h c
      → IsValid (record m { buckets = set m.buckets h c; index = ix })
  set-IsValid h ix c is =
      let e : h ≡ 0 + h = omega arith in
      record {
        width = omega (arith, length-set m.buckets h c, valid.width);
        pos = valid.pos;
        small = valid.small;
        chains =
            set-AreChains m.size 0 h m.buckets c valid.chains
              (subst (λ j. IsChain m.size j c) e is);
      }

-- A new map is valid and holds nothing.
pub new_lmap-IsValid :
    (n : ℕ) → 0 < n → IsInt n → IsValid (new_lmap n) × ((k : Key) → view (new_lmap n) k ≡ none)
unfolding new_lmap view find
new_lmap-IsValid n pos small =
    let e : to_int n ≡ n = omega arith in
    (
      record {
        width = omega (arith, length-replicate {0} {A = List Node} n []);
        pos = omega arith;
        small = omega arith;
        chains = replicate-AreChains (to_int n) 0 n;
      },
      λ k. rw (get_or-replicate, view) refl,
    )
