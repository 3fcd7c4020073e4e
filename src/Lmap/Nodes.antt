-- ===== src/Lmap/Nodes.antt =====
-- The nodes of a valid map of lmap.cpp: each is found under its key, and no two have the same key.
use lighttable.Prelude.{
  ℕ, ◌+◌, ◌-◌, ◌≤◌, ◌==◌, ◌≡◌, ◌≢◌, refl, true, false, some, List, [], ◌∷◌, ◌++◌, arith, get_or, ap,
  ◌∙◌, sym,
}
use lighttable.Struct.{Key}
use lighttable.Util.{hash}
use lighttable.Lmap.{Node, Lmap, key_of, find}
use lighttable.Lmap.Chain.{IsChain}
use lighttable.Lmap.Valid.{AreChains, IsValid, view}
use lighttable.Lmap.Copy.{get_or_from}
use lighttable.Lmap.Delete.{chain_values, values}
use lighttable.Keys.Found.{All, All-mono, All-append, find-head, find-tail}

abbrev pub key : Node → Key
key n = key_of n.key

unfoldable pub nodes : List (List Node) → List Node
nodes [] = []
nodes (c ∷ cs) = c ++ nodes cs

-- No two nodes of a list have the same key.
abbrev pub DistinctKeys : List Node → Type 0
DistinctKeys [] = Unit {0}
DistinctKeys (n ∷ ns) = All (λ m. key n ≢ key m) ns × DistinctKeys ns

chain_values-append : (c d : List Node) → chain_values (c ++ d) ≡ chain_values c ++ chain_values d
unfolding chain_values
chain_values-append [] d = refl
chain_values-append (n ∷ c) d = ap (λ r. n.v ∷ r) (chain_values-append c d)

pub values-nodes : (cs : List (List Node)) → values cs ≡ chain_values (nodes cs)
unfolding values nodes chain_values
values-nodes [] = refl
values-nodes (c ∷ cs) =
    ap (λ r. chain_values c ++ r) (values-nodes cs) ∙ sym (chain_values-append c (nodes cs))

-- In the slots from `i` on, the node stands where its key is looked for.
Placed : ℕ → ℕ → List (List Node) → Node → Type 0
Placed size i cs n =
    (i ≤ hash (key n) size) × (find (key n) (get_or cs (hash (key n) size - i) []) ≡ some n.v)

module _ (size : ℕ) where
  chain-Found :
      (i : ℕ) (c : List Node)
      → IsChain size i c
      → All (λ n. (hash (key n) size ≡ i) × (find (key n) c ≡ some n.v)) c
  chain-Found i [] h = tt
  chain-Found i (n ∷ c) (is, at, once, rest) = (
    (at, find-head n c is),
    All-mono c (λ m (e, f). (e, find-tail n c (key m) m.v is once f)) (chain-Found i c rest),
  )

  chain-DistinctKeys : (i : ℕ) (c : List Node) → IsChain size i c → DistinctKeys c
  chain-DistinctKeys i [] h = tt
  chain-DistinctKeys i (n ∷ c) (is, at, once, rest) = (
    All-mono c (λ m (e, f) same. cc (once, f)) (chain-Found i c rest),
    chain-DistinctKeys i c rest,
  )

  nodes-Placed :
      (i : ℕ) (cs : List (List Node)) → AreChains size i cs → All (Placed size i cs) (nodes cs)
  unfolding nodes Placed
  nodes-Placed i [] h = tt
  nodes-Placed i (c ∷ cs) (is, rest) =
      All-append (Placed size i (c ∷ cs)) c (nodes cs)
        (All-mono c
          (λ n (at, f).
            let slot = get_or_from i (hash (key n) size) c cs (omega arith) in
            let first : (hash (key n) size == i) ≡ true = ground arith in
            (omega arith, rw (slot, first) f))
          (chain-Found i c is))
        (All-mono (nodes cs)
          (λ n (le, f).
            let slot = get_or_from i (hash (key n) size) c cs (omega arith) in
            let further : (hash (key n) size == i) ≡ false = ground arith in
            (omega arith, rw (slot, further) f))
          (nodes-Placed (i + 1) cs rest))

  DistinctKeys-append :
      (c d : List Node)
      → DistinctKeys c
      → DistinctKeys d
      → All (λ n. All (λ m. key n ≢ key m) d) c
      → DistinctKeys (c ++ d)
  DistinctKeys-append [] d hc hd across = hd
  DistinctKeys-append (n ∷ c) d (h, hc) hd (a, across) =
      (All-append (λ m. key n ≢ key m) c d h a, DistinctKeys-append c d hc hd across)

  nodes-DistinctKeys :
      (i : ℕ) (cs : List (List Node)) → AreChains size i cs → DistinctKeys (nodes cs)
  unfolding nodes Placed
  nodes-DistinctKeys i [] h = tt
  nodes-DistinctKeys i (c ∷ cs) (is, rest) =
      DistinctKeys-append c (nodes cs) (chain-DistinctKeys i c is)
        (nodes-DistinctKeys (i + 1) cs rest)
        (All-mono c
          (λ n (at, f).
            All-mono (nodes cs)
              (λ m (le, g) same.
                let e : hash (key n) size ≡ hash (key m) size = ap (λ q. hash q size) same in
                absurd (omega (arith, e, at, le)))
              (nodes-Placed (i + 1) cs rest))
          (chain-Found i c is))

module _ {m : Lmap} (valid : IsValid m) where
  pub nodes-view : All (λ n. view m (key n) ≡ some n.v) (nodes m.buckets)
  unfolding view Placed
  nodes-view =
      All-mono (nodes m.buckets)
        (λ n (le, f).
          let z : hash (key n) m.size - 0 ≡ hash (key n) m.size = omega arith in rw z at f)
        (nodes-Placed m.size 0 m.buckets valid.chains)

  pub distinct : DistinctKeys (nodes m.buckets)
  distinct = nodes-DistinctKeys m.size 0 m.buckets valid.chains
