-- ===== src/World/Owned.antt =====
-- What a table of lighttable.cpp keeps alive: strings, and tables to which only it refers.
use lighttable.Prelude.{ℕ, suc, ◌≡◌, ◌≢◌, true, false, some, List, [], ◌∷◌, ◌++◌, arith, ◌∙◌}
use lighttable.Struct.{StringSlot, Value, lt_string, lt_ud}
use lighttable.Lmap.Delete.{values}
use lighttable.State.{Ptr, Table}
use lighttable.Table.Valid.{IsTable}
use lighttable.World.{World}
use lighttable.World.Cells.{Cell, table_at, lstring_at, slot_at, has, has-append, Apart, SameBut}
use Prim.Native.Nat.{max}

-- What a value holds: nothing that is freed with it, an lstring with its slot, or a table with what
-- its values hold.
mutual
  pub data Thing : Type 0 where
    plain : Thing
    text : Ptr → Ptr → Thing
    table : Ptr → Things → Thing

  pub data Things : Type 0 where
    nil : Things
    thing : Thing → Things → Things

unfoldable mutual
  pub cells : Thing → List Cell
  cells plain = []
  cells (text p a) = lstring_at p ∷ slot_at a ∷ []
  cells (table p ts) = table_at p ∷ all_cells ts

  pub all_cells : Things → List Cell
  all_cells nil = []
  all_cells (thing t ts) = cells t ++ all_cells ts

-- How deep tables lie in each other.
unfoldable mutual
  pub depth : Thing → ℕ
  depth plain = 0
  depth (text p a) = 0
  depth (table p ts) = suc (depth_all ts)

  pub depth_all : Things → ℕ
  depth_all nil = 0
  depth_all (thing t ts) = max (depth t) (depth_all ts)

pub record HasSlot (w : World) (p a : Ptr) : Type 0 where
  pub lock : ℕ
  pub content : StringSlot
  pub here : w.memory.lstrings p ≡ some (record { lock = lock; slot = a })
  pub there : w.memory.slots a ≡ some content

-- A table that no method works on and that has one reference.
pub record OneReference (w : World) (p : Ptr) : Type 0 where
  pub this : Table
  pub there : w.memory.tables p ≡ some this
  pub quiet : IsTable this
  pub last : this.ref ≡ 1

unfoldable mutual
  pub Holds : World → Value → Thing → Type 0
  Holds w v plain = (v.type ≢ lt_string) × (v.type ≢ lt_ud)
  Holds w v (text p a) = (v.type ≡ lt_string) × (v.v ≡ p) × HasSlot w p a
  Holds w v (table p ts) =
      (v.type ≡ lt_ud)
      × (v.v ≡ p)
      × (o : OneReference w p) × AllHold w (values o.this.map.buckets) ts

  pub AllHold : World → List Value → Things → Type 0
  AllHold w [] nil = Unit
  AllHold w [] (thing t ts) = ⊥
  AllHold w (v ∷ vs) nil = ⊥
  AllHold w (v ∷ vs) (thing t ts) = Holds w v t × AllHold w vs ts

-- At the address stands a table that holds these things.
abbrev pub Keeps : World → Ptr → Things → Type 0
Keeps w p ts = (o : OneReference w p) × AllHold w (values o.this.map.buckets) ts

has_self : (p : Ptr) (cs : List Cell) → has (table_at p) (table_at p ∷ cs) ≡ true
unfolding has
has_self p cs = ground arith

has_text :
    (p a : Ptr)
    → (has (lstring_at p) (lstring_at p ∷ slot_at a ∷ []) ≡ true)
      × (has (slot_at a) (lstring_at p ∷ slot_at a ∷ []) ≡ true)
unfolding has
has_text p a = (ground arith, ground arith)

Apart-tail : (x : Cell) (xs F : List Cell) → Apart (x ∷ xs) F → Apart xs F
unfolding has
Apart-tail x xs F apart c e = apart c (ground arith)

Apart-prefix : (xs ys F : List Cell) → Apart (xs ++ ys) F → Apart xs F
Apart-prefix xs ys F apart c e = apart c (ground (arith, has-append c xs ys))

Apart-suffix : (xs ys F : List Cell) → Apart (xs ++ ys) F → Apart ys F
Apart-suffix xs ys F apart c e = apart c (ground (arith, has-append c xs ys))

-- What changes elsewhere does not matter.
module _ (F : List Cell) (w w' : World) (same : SameBut F w w') where
  OneReference-SameBut :
      (p : Ptr) (o : OneReference w p) → has (table_at p) F ≡ false → OneReference w' p
  OneReference-SameBut p o out = record {
    this = o.this;
    there = same.tables p out ∙ o.there;
    quiet = o.quiet;
    last = o.last;
  }

  mutual
    unfolding cells Holds OneReference-SameBut

    Holds-SameBut : (v : Value) (t : Thing) → Apart (cells t) F → Holds w v t → Holds w' v t
    Holds-SameBut v plain apart h = h
    Holds-SameBut v (text p a) apart (string, e, h) = (
      string,
      e,
      record {
        lock = h.lock;
        content = h.content;
        here = same.lstrings p (apart (lstring_at p) (has_text p a).0) ∙ h.here;
        there = same.slots a (apart (slot_at a) (has_text p a).1) ∙ h.there;
      },
    )
    Holds-SameBut v (table p ts) apart (ud, e, o, h) = (
      ud,
      e,
      OneReference-SameBut p o (apart (table_at p) (has_self p (all_cells ts))),
      AllHold-SameBut (values o.this.map.buckets) ts
          (Apart-tail (table_at p) (all_cells ts) F apart) h,
    )

    pub AllHold-SameBut :
        (vs : List Value) (ts : Things)
        → Apart (all_cells ts) F
        → AllHold w vs ts
        → AllHold w' vs ts
    AllHold-SameBut [] nil apart h = tt
    AllHold-SameBut [] (thing t ts) apart h = elim h [ ]
    AllHold-SameBut (v ∷ vs) nil apart h = elim h [ ]
    AllHold-SameBut (v ∷ vs) (thing t ts) apart (h, hs) = (
      Holds-SameBut v t (Apart-prefix (cells t) (all_cells ts) F apart) h,
      AllHold-SameBut vs ts (Apart-suffix (cells t) (all_cells ts) F apart) hs,
    )
