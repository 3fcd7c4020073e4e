-- ===== src/Dictionary/Release.antt =====
-- _release of lighttable.cpp on a table that stands for a dictionary: its strings are freed.
use lighttable.Prelude.{ℕ, ◌≡◌, ◌≢◌, refl, ap, true, Option, none, some, List, [], ◌∷◌}
use lighttable.Struct.{Key, StringSlot, Value, lt_string}
use lighttable.Lmap.{Node}
use lighttable.Lmap.Nodes.{key, nodes, DistinctKeys, values-nodes, nodes-view, distinct}
use lighttable.Lmap.Delete.{chain_values, values}
use lighttable.State.{Ptr, Lstring, State, ok}
use lighttable.Table.Valid.{reads}
use lighttable.Keys.Found.{All}
use lighttable.Strings.Owned.{Owns}
use lighttable.Lifetime.{release}
use lighttable.Lifetime.Last.{release-last}
use lighttable.Dictionary.{Contents, Represents, plain}
use lighttable.Table.Read.{ud}
use lighttable.Dictionary.Plain.{Means-Owns, Means-plain}
use lighttable.Dictionary.Entries.{Read, reads-All, nodes-All}
use lighttable.Dictionary.Clear.{Owned, Separate, AllSeparate, Cleared, clear_values-Cleared}

-- The slot that an lstring points to.
slot_in : Option Lstring → Ptr
slot_in none = 0
slot_in (some l) = l.slot

slot_of : State → Value → Ptr
unfolding slot_in
slot_of s v = slot_in (s.lstrings v.v)

Owns-slot_of : (s : State) (v : Value) (a : Ptr) (t : StringSlot) → Owns s v.v a t → slot_of s v ≡ a
unfolding slot_of
Owns-slot_of s v a t o = ap slot_in o.here

module _ (s : State) (f : Contents) (r : Represents s f)
    (no_ud : (q : Key) (w : ℕ) → f q ≢ some (plain ud w)) where
  read-Owned : (q : Key) (v : Value) → reads s q ≡ some v → Owned s (slot_of s) v
  read-Owned q v e = (
    Means-plain s (f q) v (no_ud q) (rw e at (r.means q)),
    λ string.
        let (a, t, o) = Means-Owns s (f q) v string (rw e at (r.means q)) in
        (t, rw (Owns-slot_of s v a t o) o),
  )

  pair-Separate :
      (q q' : Key) (v v' : Value)
      → q ≢ q'
      → reads s q ≡ some v
      → reads s q' ≡ some v'
      → Separate (slot_of s) v v'
  pair-Separate q q' v v' ne e e' string string' =
      let (t, o) = (read-Owned q v e).1 string in
      let (t', o') = (read-Owned q' v' e').1 string' in
      r.apart q q' v v' (slot_of s v) (slot_of s v') t t' ne e e' string string' o o'

  node-Separate :
      (n : Node) (ns : List Node)
      → Read s n
      → All (Read s) ns
      → All (λ m. key n ≢ key m) ns
      → All (Separate (slot_of s) n.v) (chain_values ns)
  unfolding chain_values
  node-Separate n [] e h ne = tt
  node-Separate n (m ∷ ns) e (e', h) (d, ne) =
      (pair-Separate (key n) (key m) n.v m.v d e e', node-Separate n ns e h ne)

  nodes-AllSeparate :
      (ns : List Node)
      → All (Read s) ns
      → DistinctKeys ns
      → AllSeparate (slot_of s) (chain_values ns)
  unfolding chain_values
  nodes-AllSeparate [] h d = tt
  nodes-AllSeparate (n ∷ ns) (e, h) (d, ds) = (node-Separate n ns e h d, nodes-AllSeparate ns h ds)

-- What is left after a table with the last reference is released: none of its strings, and all
-- others.
pub record Gone (s s' : State) : Type 0 where
  pub texts :
      (q : Key) (v : Value) (a : Ptr) (t : StringSlot)
      → reads s q ≡ some v
      → v.type ≡ lt_string
      → Owns s v.v a t
      → (s'.lstrings v.v ≡ none) × (s'.slots a ≡ none)
  pub others :
      (p a : Ptr) (t : StringSlot)
      → ((q : Key) (v : Value) (b : Ptr) (u : StringSlot)
          → reads s q ≡ some v
          → v.type ≡ lt_string
          → Owns s v.v b u
          → (p ≢ v.v) × (a ≢ b))
      → Owns s p a t
      → Owns s' p a t

-- With the members of the table reset, as the destructor resets them.
abbrev reset : State → State
reset s = record s { table = record s.table { ref = 0; lock = 0; map_lock = 0 } }

reset-Owns : (s : State) (p a : Ptr) (t : StringSlot) → Owns s p a t → Owns (reset s) p a t
reset-Owns s p a t o = record { here = o.here; there = o.there; once = o.once }

Cleared-Gone :
    (s : State) (f : Contents) (r : Represents s f)
    (no_ud : (q : Key) (w : ℕ) → f q ≢ some (plain ud w)) (s' : State)
    → Cleared (reset s) (slot_of s) (values s.table.map.buckets) s'
    → Gone s s'
Cleared-Gone s f r no_ud s' cleared = record {
  texts = λ q v a t e string o.
      let (x, y) =
        reads-All
          (λ u. u.type ≡ lt_string → (s'.lstrings u.v ≡ none) × (s'.slots (slot_of s u) ≡ none)) s q
          v e cleared.gone string in
      (x, rw (Owns-slot_of s v a t o) at y);
  others = λ p a t far o.
      cleared.others p a t
        (rw (values-nodes s.table.map.buckets) (
          nodes-All (λ u. u.type ≡ lt_string → (p ≢ u.v) × (a ≢ slot_of s u)) s
            (nodes s.table.map.buckets) (nodes-view r.quiet.map)
            (λ q v e string.
              let (u, had) = (read-Owned s f r no_ud q v e).1 string in
              far q v (slot_of s v) u e string had)))
        (reset-Owns s p a t o);
}

-- On a table that no method works on, that stands for a dictionary without user data and to which
-- one reference is left, _release deletes it without a fault: the lstring and the slot of each of its texts are freed,
-- and every string that shares neither with one of them stays as it was.
pub release-Gone :
    (s : State) (f : Contents)
    → Represents s f
    → ((q : Key) (w : ℕ) → f q ≢ some (plain ud w))
    → s.table.ref ≡ 1
    → (s' : State) × (release s ≡ ok true s') × Gone s s'
release-Gone s f r no_ud last =
    let vs = values s.table.map.buckets in
    let e : vs ≡ chain_values (nodes s.table.map.buckets) = values-nodes s.table.map.buckets in
    let found = nodes-view r.quiet.map in
    let owned : All (Owned (reset s) (slot_of s)) vs = rw e (
      nodes-All (Owned (reset s) (slot_of s)) s (nodes s.table.map.buckets) found (λ q v there.
        let (plain_one, had) = read-Owned s f r no_ud q v there in
        (
          plain_one,
          λ string. let (t, o) = had string in (t, reset-Owns s v.v (slot_of s v) t o),
        ))) in
    let apart : AllSeparate (slot_of s) vs =
      rw e
        (nodes-AllSeparate s f r no_ud (nodes s.table.map.buckets) found (distinct r.quiet.map)) in
    let (s', run, cleared) = clear_values-Cleared (reset s) (slot_of s) vs owned apart in
    (s', rw (release-last s r.quiet last, run) refl, Cleared-Gone s f r no_ud s' cleared)
