-- ===== src/World/Cells.antt =====
-- The pieces of memory of the world that malloc and new give out, sets of them, and what is left of
-- the world when a set of them is freed.
use lighttable.Prelude.{
  ◌≡◌, refl, Bool, true, false, ◌||◌, none, List, [], ◌∷◌, ◌++◌, ◌==◌, if◌then◌else◌, arith,
  Bool-cases, inl, inr,
}
use lighttable.State.{Ptr}
use lighttable.World.{World}

pub data Cell : Type 0 where
  table_at lstring_at slot_at : Ptr → Cell

abbrev pub same_cell : Cell → Cell → Bool
same_cell (table_at p) (table_at q) = p == q
same_cell (table_at p) (lstring_at q) = false
same_cell (table_at p) (slot_at q) = false
same_cell (lstring_at p) (table_at q) = false
same_cell (lstring_at p) (lstring_at q) = p == q
same_cell (lstring_at p) (slot_at q) = false
same_cell (slot_at p) (table_at q) = false
same_cell (slot_at p) (lstring_at q) = false
same_cell (slot_at p) (slot_at q) = p == q

unfoldable pub has : Cell → List Cell → Bool
has c [] = false
has c (d ∷ cs) = same_cell c d || has c cs

pub has-append : (c : Cell) (xs ys : List Cell) → has c (xs ++ ys) ≡ (has c xs || has c ys)
unfolding has
has-append c [] ys = refl
has-append c (x ∷ xs) ys = ground (arith, has-append c xs ys)

-- No cell of the first set is one of the second.
abbrev pub Apart : List Cell → List Cell → Type 0
Apart xs ys = (c : Cell) → has c xs ≡ true → has c ys ≡ false

-- No cell stands in the list twice.
abbrev pub Distinct : List Cell → Type 0
Distinct [] = Unit {0}
Distinct (c ∷ cs) = (has c cs ≡ false) × Distinct cs

same_cell_eq : (c d : Cell) → same_cell c d ≡ true → c ≡ d
same_cell_eq (table_at p) (table_at q) e = ground arith
same_cell_eq (table_at p) (lstring_at q) e = cc
same_cell_eq (table_at p) (slot_at q) e = cc
same_cell_eq (lstring_at p) (table_at q) e = cc
same_cell_eq (lstring_at p) (lstring_at q) e = ground arith
same_cell_eq (lstring_at p) (slot_at q) e = cc
same_cell_eq (slot_at p) (table_at q) e = cc
same_cell_eq (slot_at p) (lstring_at q) e = cc
same_cell_eq (slot_at p) (slot_at q) e = ground arith

pub Apart-head : (x : Cell) (ys : List Cell) → has x ys ≡ false → Apart (x ∷ []) ys
unfolding has
Apart-head x ys out c e = elim (Bool-cases (same_cell c x)) [
  | inl is ↦ rw (same_cell_eq c x is) out
  | inr not ↦ ground arith
]

pub Apart-sym : (xs ys : List Cell) → Apart xs ys → Apart ys xs
Apart-sym xs ys apart c e = elim (Bool-cases (has c xs)) [
  | inl in_xs ↦ cc (apart c in_xs, e)
  | inr out ↦ out
]

pub Distinct-suffix : (xs ys : List Cell) → Distinct (xs ++ ys) → Distinct ys
Distinct-suffix [] ys d = d
Distinct-suffix (x ∷ xs) ys (out, d) = Distinct-suffix xs ys d

pub Distinct-prefix : (xs ys : List Cell) → Distinct (xs ++ ys) → Distinct xs
Distinct-prefix [] ys d = tt
Distinct-prefix (x ∷ xs) ys (out, d) = (ground (arith, has-append x xs ys), Distinct-prefix xs ys d)

pub Distinct-Apart : (xs ys : List Cell) → Distinct (xs ++ ys) → Apart xs ys
unfolding has
Distinct-Apart [] ys d c e = cc
Distinct-Apart (x ∷ xs) ys (out, d) c e =
    let far : has x ys ≡ false = ground (arith, has-append x xs ys) in
    elim (Bool-cases (same_cell c x)) [
      | inl is ↦ rw (same_cell_eq c x is) far
      | inr not ↦ Distinct-Apart xs ys d c (ground arith)
    ]

-- The one world is the other less these cells.
pub record Without (cs : List Cell) (w w' : World) : Type 0 where
  pub tables :
      (p : Ptr) → w'.memory.tables p ≡ (if has (table_at p) cs then none else w.memory.tables p)
  pub lstrings :
      (p : Ptr)
      → w'.memory.lstrings p ≡ (if has (lstring_at p) cs then none else w.memory.lstrings p)
  pub slots :
      (p : Ptr) → w'.memory.slots p ≡ (if has (slot_at p) cs then none else w.memory.slots p)
  pub serialed : w'.serialed ≡ w.serialed
  pub printed : w'.printed ≡ w.printed

pub Without-nil : (w : World) → Without [] w w
unfolding has
Without-nil w = record {
  tables = λ p. refl;
  lstrings = λ p. refl;
  slots = λ p. refl;
  serialed = refl;
  printed = refl;
}

pub Without-append :
    (xs ys : List Cell) (w w₁ w₂ : World)
    → Without xs w w₁
    → Without ys w₁ w₂
    → Without (xs ++ ys) w w₂
Without-append xs ys w w₁ w₂ a b = record {
  tables = λ p. ground (arith, a.tables p, b.tables p, has-append (table_at p) xs ys);
  lstrings = λ p. ground (arith, a.lstrings p, b.lstrings p, has-append (lstring_at p) xs ys);
  slots = λ p. ground (arith, a.slots p, b.slots p, has-append (slot_at p) xs ys);
  serialed = cc (a.serialed, b.serialed);
  printed = cc (a.printed, b.printed);
}

-- Outside of some cells, both worlds hold the same.
pub record SameBut (cs : List Cell) (w w' : World) : Type 0 where
  pub tables : (p : Ptr) → has (table_at p) cs ≡ false → w'.memory.tables p ≡ w.memory.tables p
  pub lstrings :
      (p : Ptr) → has (lstring_at p) cs ≡ false → w'.memory.lstrings p ≡ w.memory.lstrings p
  pub slots : (p : Ptr) → has (slot_at p) cs ≡ false → w'.memory.slots p ≡ w.memory.slots p

pub Without-SameBut : (cs : List Cell) (w w' : World) → Without cs w w' → SameBut cs w w'
Without-SameBut cs w w' o = record {
  tables = λ p out. rw out at (o.tables p);
  lstrings = λ p out. rw out at (o.lstrings p);
  slots = λ p out. rw out at (o.slots p);
}
