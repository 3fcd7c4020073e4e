-- ===== src/Lmap/Copy.antt =====
-- _copy_map of lmap.cpp, and ~lmap of the map that was copied.
use lighttable.Prelude.{
  ℕ, suc, ◌+◌, ◌-◌, ◌≡◌, refl, ◌≢◌, ◌≤◌, none, some, List, [], ◌∷◌, arith, get_or, set, ◌==◌, leb,
  Bool-cases, inl, inr, if◌then◌else◌, get_or-set, ap, sym, ◌∙◌,
}
use native.Mathlib.Decide.{ℕ_discrete}
use mathlib.Core.Option.{or_else}
use lighttable.Struct.{Key}
use lighttable.Util.{hash}
use lighttable.Lmap.{
  Node, Lmap, new_node, key_of, find, chain_of, is_in_hash, insert_node, copy_chain, copy_buckets,
}
use lighttable.Lmap.Stored.{IsNode, same_key_iff, is_in_hash-same_key}
use lighttable.Lmap.Chain.{IsChain, find-none}
use lighttable.Lmap.Valid.{AreChains, IsValid, view, set-IsValid, chain_of-IsChain, hash-lt-width}

-- The new node is the one that was copied.
insert_node-eq :
    (m : Lmap) {n : Node}
    → IsNode n
    → let h = hash (key_of n.key) m.size in
      insert_node m n ≡ record m { buckets = set m.buckets h (n ∷ get_or m.buckets h []) }
unfolding insert_node new_node
insert_node-eq m {n} is =
    let h = hash (key_of n.key) m.size in
    ap
      (λ nk. record m {
        buckets = set m.buckets h (record { key = nk; v = n.v } ∷ get_or m.buckets h []);
      })
      (sym is.stored)

-- A copy writes to the chains alone.
pub record Keeps (m m' : Lmap) : Type 0 where
  pub ref : m'.ref ≡ m.ref
  pub size : m'.size ≡ m.size
  pub index : m'.index ≡ m.index

Keeps-refl : {m : Lmap} → Keeps m m
Keeps-refl = record { ref = refl; size = refl; index = refl }

Keeps-trans : {a b c : Lmap} → Keeps a b → Keeps b c → Keeps a c
Keeps-trans h k = record { ref = k.ref ∙ h.ref; size = k.size ∙ h.size; index = k.index ∙ h.index }

-- What a copy of one node does to a map that does not hold its key.
record Copied (m : Lmap) (n : Node) (m' : Lmap) : Type 0 where
  valid : IsValid m'
  keeps : Keeps m m'
  reads : (q : Key) → view m' q ≡ (if is_in_hash q n then some n.v else view m q)

insert_node-Copied :
    {m : Lmap} {n : Node}
    → IsValid m
    → IsNode n
    → view m (key_of n.key) ≡ none
    → Copied m n (insert_node m n)
unfolding view find
insert_node-Copied {m} {n} valid is absent =
    let k = key_of n.key in
    let h = hash k m.size in
    rw (insert_node-eq m is) (record {
      valid = set-IsValid valid h m.index _ (is, refl, absent, chain_of-IsChain valid k);
      keeps = record { ref = refl; size = refl; index = refl };
      reads = λ q.
          rw (get_or-set m.buckets h (hash q m.size) (n ∷ chain_of m k) [] (hash-lt-width valid k))
            (ground (arith, is_in_hash-same_key q is, same_key_iff q k));
    })

module _ (size i : ℕ) where
  -- After the copy of a chain that holds none of the map's keys, each reads what one of them holds.
  copy_chain-view :
      (c : List Node) (m : Lmap)
      → IsValid m
      → IsChain size i c
      → ((q : Key) → find q c ≢ none → view m q ≡ none)
      → IsValid (copy_chain m c)
        × Keeps m (copy_chain m c)
        × ((q : Key) → view (copy_chain m c) q ≡ or_else (find q c) (view m q))
  unfolding copy_chain find or_else
  copy_chain-view [] m valid h apart = (valid, Keeps-refl, λ q. refl)
  copy_chain-view (n ∷ c) m valid (is, at, once, rest) apart =
      let step = insert_node-Copied valid is (
        apart (key_of n.key) (
          ground (
            arith,
            is_in_hash-same_key (key_of n.key) is,
            same_key_iff (key_of n.key) (key_of n.key),
          ))) in
      let (v, keeps, r) = copy_chain-view c (insert_node m n) step.valid rest (λ q f.
        ground (
          arith,
          step.reads q,
          is_in_hash-same_key q is,
          same_key_iff q (key_of n.key),
          apart q,
        )) in
      (
        v,
        Keeps-trans step.keeps keeps,
        λ q.
            ground
              (arith, r q, step.reads q, is_in_hash-same_key q is, same_key_iff q (key_of n.key)),
      )

  pub find-hash : (q : Key) (c : List Node) → IsChain size i c → find q c ≢ none → hash q size ≡ i
  find-hash q c h f = elim (ℕ_discrete (hash q size) i) [
    | yes e ↦ e
    | no ne ↦ absurd (f (find-none size i q c h ne))
  ]

pub get_or_from :
    (i h : ℕ) (c : List Node) (cs : List (List Node))
    → i ≤ h
    → get_or (c ∷ cs) (h - i) [] ≡ (if h == i then c else get_or cs (h - (i + 1)) [])
get_or_from i h c cs le = elim (Bool-cases (h == i)) [
  | inl here ↦ let e : h - i ≡ 0 = ground arith in rw (e, here) refl
  | inr further ↦ let e : h - i ≡ suc (h - (i + 1)) = ground arith in rw (e, further) refl
]

module _ (size : ℕ) where
  -- The slots from `i` on are copied into a map that holds none of their keys.
  pub copy_buckets-view :
      (i : ℕ) (cs : List (List Node)) (m : Lmap)
      → IsValid m
      → AreChains size i cs
      → ((q : Key) → i ≤ hash q size → view m q ≡ none)
      → IsValid (copy_buckets m cs)
        × Keeps m (copy_buckets m cs)
        × ((q : Key)
            → view (copy_buckets m cs) q
              ≡ (if leb i (hash q size) then find q (get_or cs (hash q size - i) []) else view m q))
  unfolding copy_buckets find or_else
  copy_buckets-view i [] m valid h apart = (valid, Keeps-refl, λ q. ground (arith, apart q))
  copy_buckets-view i (c ∷ cs) m valid (is, rest) apart =
      let (v, keeps, r) =
        copy_chain-view size i c m valid is
          (λ q f. apart q (omega (arith, find-hash size i q c is f))) in
      let (v', keeps', r') =
        copy_buckets-view (i + 1) cs (copy_chain m c) v rest
          (λ q le. ground (arith, r q, find-none size i q c is, apart q)) in
      (
        v',
        Keeps-trans keeps keeps',
        λ q.
            ground (
              arith,
              r' q,
              r q,
              get_or_from i (hash q size) c cs,
              find-none size i q c is,
              apart q,
            ),
      )
