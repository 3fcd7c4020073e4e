-- ===== src/Prelude/Family.antt =====
-- What threads have in common: a value for each of them, changed at one, and sums over the first n.
use Prim.Native.Nat.{ℕ, zero, suc, ◌+◌, ◌≤◌, ◌<◌}
use mathlib.Core.Path.{◌≡◌, refl}
use mathlib.Core.Logic.{◌≢◌, inl, inr}
use native.Mathlib.Omega.{arith}
use lighttable.Prelude.Tests.{◌==◌, if◌then◌else◌, Bool-cases}

abbrev pub update {ℓ} : {A : Type ℓ} → (ℕ → A) → ℕ → A → ℕ → A
update f i a j = if j == i then a else f j

pub update_same {ℓ} : {A : Type ℓ} (f : ℕ → A) (i : ℕ) (a : A) → update f i a i ≡ a
update_same f i a = ground arith

pub update_other {ℓ} :
    {A : Type ℓ} (f : ℕ → A) (i : ℕ) (a : A) (j : ℕ) → j ≢ i → update f i a j ≡ f j
update_other f i a j ne = ground arith

pub sum : ℕ → (ℕ → ℕ) → ℕ
sum zero f = 0
sum (suc n) f = sum n f + f n

pub sum-same : (n : ℕ) (f g : ℕ → ℕ) → ((j : ℕ) → j < n → f j ≡ g j) → sum n f ≡ sum n g
unfolding sum
sum-same zero f g h = refl
sum-same (suc n) f g h =
    omega (arith, h n (omega arith), sum-same n f g (λ j lt. h j (omega arith)))

-- A change at one place changes the sum by as much.
pub sum-change :
    (n i : ℕ) (f g : ℕ → ℕ)
    → i < n
    → ((j : ℕ) → j < n → j ≢ i → f j ≡ g j)
    → sum n f + g i ≡ sum n g + f i
unfolding sum
sum-change zero i f g lt h = absurd (omega arith)
sum-change (suc n) i f g lt h = elim (Bool-cases (n == i)) [
  | inl here ↦
      let e : n ≡ i = ground arith in
      let same : sum n f ≡ sum n g = sum-same n f g (λ j l. h j (omega arith) (omega arith)) in
      rw (← e) (omega arith)
  | inr there ↦
      let ne : n ≢ i = ground arith in
      omega
        (arith, h n (omega arith) ne, sum-change n i f g (omega arith) (λ j l. h j (omega arith)))
]

pub le-sum : (n i : ℕ) (f : ℕ → ℕ) → i < n → f i ≤ sum n f
unfolding sum
le-sum zero i f lt = absurd (omega arith)
le-sum (suc n) i f lt = elim (Bool-cases (n == i)) [
  | inl here ↦ let e : n ≡ i = ground arith in rw (← e) (omega arith)
  | inr there ↦ let ne : n ≢ i = ground arith in omega (arith, le-sum n i f (omega arith))
]

pub two-le-sum : (n i j : ℕ) (f : ℕ → ℕ) → i < n → j < n → j ≢ i → f i + f j ≤ sum n f
unfolding sum
two-le-sum zero i j f lt lt' other = absurd (omega arith)
two-le-sum (suc n) i j f lt lt' other = elim (Bool-cases (n == i)) [
  | inl here ↦ let e : n ≡ i = ground arith in rw (← e) (omega (arith, le-sum n j f (omega arith)))
  | inr there ↦
      let ne : n ≢ i = ground arith in
      elim (Bool-cases (n == j)) [
        | inl here' ↦
            let e : n ≡ j = ground arith in rw (← e) (omega (arith, le-sum n i f (omega arith)))
        | inr there' ↦
            let ne' : n ≢ j = ground arith in
            omega (arith, two-le-sum n i j f (omega arith) (omega arith) other)
      ]
]

pub sum-le : (n : ℕ) (f : ℕ → ℕ) → ((j : ℕ) → f j ≤ 1) → sum n f ≤ n
unfolding sum
sum-le zero f h = omega arith
sum-le (suc n) f h = omega (arith, h n, sum-le n f h)

pub sum-eq_zero : (n : ℕ) (f : ℕ → ℕ) → ((j : ℕ) → j < n → f j ≡ 0) → sum n f ≡ 0
unfolding sum
sum-eq_zero zero f h = refl
sum-eq_zero (suc n) f h =
    omega (arith, h n (omega arith), sum-eq_zero n f (λ j lt. h j (omega arith)))
