-- ===== src/Dictionary/Entries.antt =====
-- The values in the chains of a table of lighttable.cpp are those that its keys read.
use lighttable.Prelude.{
  ℕ, zero, suc, ◌≡◌, some, List, [], ◌∷◌, ◌++◌, inl, inr, arith, Bool-cases, get_or,
}
use lighttable.Struct.{Key, Value}
use lighttable.Util.{hash}
use lighttable.Lmap.{Node, is_in_hash, find}
use lighttable.Lmap.Valid.{view}
use lighttable.Lmap.Nodes.{key}
use lighttable.Lmap.Delete.{chain_values, values}
use lighttable.State.{State}
use lighttable.Table.Valid.{reads}
use lighttable.Keys.Found.{All}

-- What holds of every value holds of one that a key reads.
module _ (P : Value → Type 0) where
  find-All :
      (q : Key) (v : Value) (c : List Node) → find q c ≡ some v → All P (chain_values c) → P v
  unfolding find chain_values
  find-All q v [] e h = cc
  find-All q v (n ∷ c) e (p, h) = elim (Bool-cases (is_in_hash q n)) [
    | inl hit ↦ let same : n.v ≡ v = ground arith in rw same at p
    | inr miss ↦ find-All q v c (rw miss at e) h
  ]

  All-prefix : (xs ys : List Value) → All P (xs ++ ys) → All P xs
  All-prefix [] ys h = tt
  All-prefix (x ∷ xs) ys (p, h) = (p, All-prefix xs ys h)

  All-suffix : (xs ys : List Value) → All P (xs ++ ys) → All P ys
  All-suffix [] ys h = h
  All-suffix (x ∷ xs) ys (p, h) = All-suffix xs ys h

  values-All :
      (cs : List (List Node)) (j : ℕ) → All P (values cs) → All P (chain_values (get_or cs j []))
  unfolding values chain_values
  values-All [] j h = tt
  values-All (c ∷ cs) zero h = All-prefix (chain_values c) (values cs) h
  values-All (c ∷ cs) (suc j) h = values-All cs j (All-suffix (chain_values c) (values cs) h)

  pub reads-All :
      (s : State) (q : Key) (v : Value)
      → reads s q ≡ some v
      → All P (values s.table.map.buckets)
      → P v
  unfolding view
  reads-All s q v e h =
      find-All q v (get_or s.table.map.buckets (hash q s.table.map.size) []) e
        (values-All s.table.map.buckets (hash q s.table.map.size) h)

-- The nodes of the table, read through their keys.
abbrev pub Read : State → Node → Type 0
Read s n = reads s (key n) ≡ some n.v

pub nodes-All :
    (P : Value → Type 0) (s : State) (ns : List Node)
    → All (Read s) ns
    → ((q : Key) (v : Value) → reads s q ≡ some v → P v)
    → All P (chain_values ns)
unfolding chain_values
nodes-All P s [] h f = tt
nodes-All P s (n ∷ ns) (e, h) f = (f (key n) n.v e, nodes-All P s ns h f)
