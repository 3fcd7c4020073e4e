-- ===== src/Tests/Supplies.antt =====
-- A heap that gives addresses below 1000, each above all that are in use.
use lighttable.Prelude.{
  ℕ, zero, suc, ◌+◌, ◌≡◌, ◌≢◌, refl, ◌≤◌, ◌<◌, Bool, true, false, ◌||◌, Option, none, some, arith,
  if◌then◌else◌, Bool-cases, inl, inr,
}
use native.Mathlib.Decide.{dec_lt}
use lighttable.State.{Ptr}
use lighttable.World.{World}
use lighttable.World.Life.{Heap}
use lighttable.World.Supply.{Uses, Supply}

abbrev is_some : {A : Type 0} → Option A → Bool
is_some none = false
is_some (some a) = true

is_some-none : {A : Type 0} (o : Option A) → is_some o ≡ false → o ≡ none
is_some-none none e = refl
is_some-none (some a) e = cc

-- Whether something stands at the address.
unfoldable pub occupied : World → Ptr → Bool
occupied w p =
    is_some (w.memory.tables p) || is_some (w.memory.lstrings p) || is_some (w.memory.slots p)

-- The least number above all numbers below `n` of which the test holds.
unfoldable pub top : ℕ → (ℕ → Bool) → ℕ
top zero f = 0
top (suc n) f = let below = top n f in if f n then suc n else below

top-le_all : (n : ℕ) (f : ℕ → Bool) → top n f ≤ n
unfolding top
top-le_all zero f = omega arith
top-le_all (suc n) f = ground (arith, top-le_all n f)

top-le : (n k : ℕ) (f : ℕ → Bool) → ((x : ℕ) → k ≤ x → f x ≡ false) → k ≤ n → top n f ≤ k
unfolding top
top-le zero k f free le = omega arith
top-le (suc n) k f free le = elim (dec_lt n k) [
  | yes beyond ↦ ground (arith, top-le_all n f)
  | no within ↦ ground (arith, free n, top-le n k f free)
]

top-free : (n : ℕ) (f : ℕ → Bool) (x : ℕ) → top n f ≤ x → x < n → f x ≡ false
unfolding top
top-free zero f x le lt = absurd (omega arith)
top-free (suc n) f x le lt = elim (Bool-cases (f n)) [
  | inl used ↦ absurd (omega (arith, rw used at le))
  | inr unused ↦ elim (dec_lt x n) [
    | yes below ↦ top-free n f x (rw unused at le) below
    | no last ↦ let e : x ≡ n = omega arith in rw e unused
  ]
]

abbrev pub tower : Heap
tower = record {
  new_table_at = λ w. top 1000 (occupied w);
  malloc_lstring = λ w. top 1000 (occupied w);
  malloc_slot = λ w. top 1000 (occupied w);
  first_size = 29;
}

-- Nothing stands from some address on, with `n` more addresses from there.
abbrev pub Above : ℕ → World → Type 0
Above n w = (k : ℕ) × (k + n ≤ 1000) × ((x : ℕ) → k ≤ x → occupied w x ≡ false)

unoccupied :
    (w : World) (p : Ptr)
    → occupied w p ≡ false
    → (w.memory.tables p ≡ none) × (w.memory.lstrings p ≡ none) × (w.memory.slots p ≡ none)
unfolding occupied
unoccupied w p e = (
  is_some-none (w.memory.tables p) (ground arith),
  is_some-none (w.memory.lstrings p) (ground arith),
  is_some-none (w.memory.slots p) (ground arith),
)

still-unoccupied :
    (w : World) (p : Ptr)
    → w.memory.tables p ≡ none
    → w.memory.lstrings p ≡ none
    → w.memory.slots p ≡ none
    → occupied w p ≡ false
unfolding occupied
still-unoccupied w p a b c = rw (a, b, c) refl

given : (n : ℕ) (w : World) → Above (suc n) w → occupied w (top 1000 (occupied w)) ≡ false
given n w (k, room, free) =
    let le : top 1000 (occupied w) ≤ k = top-le 1000 k (occupied w) free (omega arith) in
    top-free 1000 (occupied w) (top 1000 (occupied w)) (omega arith) (omega arith)

less : (n : ℕ) (w w' : World) → Above (suc n) w → Uses tower w w' → Above n w'
less n w w' (k, room, free) uses =
    let le : top 1000 (occupied w) ≤ k = top-le 1000 k (occupied w) free (omega arith) in
    (
      k + 1,
      omega arith,
      λ x far.
          let ne : x ≢ top 1000 (occupied w) = omega arith in
          let (a, b, c) = unoccupied w x (free x (omega arith)) in
          still-unoccupied w' x (uses.tables x ne a) (uses.lstrings x ne b) (uses.slots x ne c),
    )

pub tower-Supply : Supply tower Above
tower-Supply = record {
  table = λ n w room. (unoccupied w (top 1000 (occupied w)) (given n w room)).0;
  lstring = λ n w room. (unoccupied w (top 1000 (occupied w)) (given n w room)).1;
  slot = λ n w room. (unoccupied w (top 1000 (occupied w)) (given n w room)).2;
  less = less;
}
