-- ===== src/Util/Prime.antt =====
-- is_prime and next_prime of ltutil.cpp.
use lighttable.Prelude.{
  ℕ, zero, suc, ◌+◌, ◌-◌, ◌*◌, ◌/◌, ◌%◌, ◌^◌, ◌≤◌, ◌<◌, ◌≡◌, refl, ◌≢◌, ◌↔◌, inl, inr, Bool, true,
  false, some, List, [], ◌∷◌, ◌&&◌, ap, ◌∙◌, arith, ltb, ◌==◌, Bool-cases, if◌then◌else◌,
}
use native.Mathlib.Nat.{div-add-mod, mul-mod_right}
use lighttable.Util.{first, passes, passes_from, is_prime, next_prime}

-- `r` is the root of `n`, rounded down.
abbrev pub IsRoot : ℕ → ℕ → Type 0
IsRoot n r = (r * r ≤ n) × (n < (r + 1) * (r + 1))

abbrev pub IsPrime : ℕ → Type 0
IsPrime n = (2 ≤ n) × ((d : ℕ) → 2 ≤ d → d < n → n % d ≢ 0)

passes_from-ne :
    (n i rounds d : ℕ) → passes_from n i rounds ≡ true → i ≤ d → d < i + rounds → n % d ≢ 0
unfolding passes_from
passes_from-ne n i zero d h le lt = absurd (omega arith)
passes_from-ne n i (suc rounds) d h le lt = ground (arith, passes_from-ne n (i + 1) rounds d)

passes_from-true :
    (n i rounds : ℕ)
    → ((d : ℕ) → i ≤ d → d < i + rounds → n % d ≢ 0)
    → passes_from n i rounds ≡ true
unfolding passes_from
passes_from-true n i zero h = refl
passes_from-true n i (suc rounds) h =
    ground
      (arith, h i, passes_from-true n (i + 1) rounds (λ d p q. h d (omega arith) (omega arith)))

mod_trans : (n d p : ℕ) → n % d ≡ 0 → d % p ≡ 0 → n % p ≡ 0
mod_trans n d p h k =
    let e : d ≡ p * (d / p) = omega (arith, div-add-mod d p) in
    let m : n ≡ p * (d / p * (n / d)) = omega (arith, div-add-mod n d, ap (λ t. t * (n / d)) e) in
    rw m (mul-mod_right p _)

-- A number that the table turns down has no multiple that passes.
passes-false : (n d : ℕ) (ps : List ℕ) → n % d ≡ 0 → passes d ps ≡ false → passes n ps ≡ false
unfolding passes
passes-false n d [] h k = k
passes-false n d (p ∷ ps) h k = ground (arith, mod_trans n d p h, passes-false n d ps h)

all_below : ℕ → (ℕ → Bool) → Bool
all_below zero p = true
all_below (suc n) p = p n && all_below n p

all_below_lem : (n : ℕ) (p : ℕ → Bool) (x : ℕ) → all_below n p ≡ true → x < n → p x ≡ true
unfolding all_below
all_below_lem zero p x h lt = absurd (omega arith)
all_below_lem (suc n) p x h lt = ground (arith, all_below_lem n p x)

first_table : all_below 29 (λ d. if passes d first then ltb d 2 else true) ≡ true
unfolding all_below passes
first_table = refl

passes-small : (d : ℕ) → 2 ≤ d → d < 29 → passes d first ≡ false
passes-small d p q =
    let t = all_below_lem 29 (λ d. if passes d first then ltb d 2 else true) d first_table q in
    ground (arith, t)

-- Neither loop meets a divisor that is not above the root.
passes-ne :
    (n r d : ℕ)
    → passes n first ≡ true
    → passes_from n 29 (r + 1 - 29) ≡ true
    → 2 ≤ d
    → d ≤ r
    → n % d ≢ 0
passes-ne n r d h k p q = elim (Bool-cases (ltb d 29)) [
  | inl small ↦ λ e. let f = passes-false n d first e (passes-small d p (ground arith)) in cc
  | inr large ↦ passes_from-ne n 29 (r + 1 - 29) d k (ground arith) (ground arith)
]

-- A divisor above the root leaves a quotient that is not.
product-le : (a b c d : ℕ) → a ≤ c → b ≤ d → a * b ≤ c * d
product-le a b c d h k = grind arith

quotient-le : (n r d : ℕ) → IsRoot n r → n % d ≡ 0 → r < d → n / d ≤ r
quotient-le n r d h e lt = elim (Bool-cases (ltb r (n / d))) [
  | inr le ↦ ground arith
  | inl gt ↦
      let p = product-le (r + 1) (r + 1) d (n / d) (omega arith) (ground arith) in
      absurd (omega (arith, div-add-mod n d))
]

-- The quotient by a proper divisor is a divisor again, and is not one.
quotient-ge : (n d : ℕ) → n % d ≡ 0 → d < n → 2 ≤ n / d
quotient-ge n d e lt = elim (Bool-cases (ltb (n / d) 2)) [
  | inr ge ↦ ground arith
  | inl small ↦
      let p = product-le d (n / d) d 1 (omega arith) (ground arith) in
      absurd (omega (arith, div-add-mod n d))
]

mod-quotient : (n d : ℕ) → n % d ≡ 0 → n % (n / d) ≡ 0
mod-quotient n d e =
    let m : n ≡ n / d * d = omega (arith, div-add-mod n d) in
    ap (λ t. t % (n / d)) m ∙ mul-mod_right (n / d) d

in_table : List ℕ → Bool
in_table [] = true
in_table (p ∷ ps) = ltb 1 p && (ltb p 24 && in_table ps)

passes-true :
    (n : ℕ) (ps : List ℕ)
    → in_table ps ≡ true
    → ((d : ℕ) → 2 ≤ d → d < 24 → n % d ≢ 0)
    → passes n ps ≡ true
unfolding passes in_table
passes-true n [] t h = refl
passes-true n (p ∷ ps) t h = ground (arith, h p, passes-true n ps (ground arith) h)

root-lt : (n r d : ℕ) → IsRoot n r → 29 ≤ d → d < 29 + (r + 1 - 29) → d < n
root-lt n r d (le, gt) big lt =
    let a = product-le d d r r (omega arith) (omega arith) in
    let b = product-le 29 d d d (omega arith) (omega arith) in omega arith

-- A root is bounded by any number whose successor has a larger square.
root-le : (n r b : ℕ) → IsRoot n r → n < (b + 1) * (b + 1) → r ≤ b
root-le n r b (le, gt) big = elim (Bool-cases (ltb b r)) [
  | inr small ↦ ground arith
  | inl large ↦
      let p = product-le (b + 1) (b + 1) r r (ground arith) (ground arith) in absurd (omega arith)
]

module _ (sqrt : ℕ → ℕ) where
  -- next_prime returns the first number above n that is_prime accepts, if that is below 2^32 and
  -- the fuel reaches it.
  pub next_prime-first :
      (fuel n p : ℕ)
      → n < p
      → p ≤ n + fuel
      → p < 2 ^ 32
      → is_prime sqrt p ≡ true
      → ((m : ℕ) → n < m → m < p → is_prime sqrt m ≡ false)
      → next_prime sqrt fuel n ≡ some p
  unfolding next_prime
  next_prime-first zero n p lt le small h between = absurd (omega arith)
  next_prime-first (suc fuel) n p lt le small h between =
      let e : (n + 1) % 2 ^ 32 ≡ n + 1 = omega arith in
      elim (Bool-cases (n + 1 == p)) [
        | inl here ↦ let at : n + 1 ≡ p = ground arith in rw (e, at, h) refl
        | inr further ↦
            rw (e, between (n + 1) (omega arith) (ground arith))
              (next_prime-first fuel (n + 1) p (ground arith) (omega arith) small h
                (λ m l u. between m (omega arith) u))
      ]

  composite-small : (m : ℕ) → 2 ≤ m → m < 29 → is_prime sqrt m ≡ false
  unfolding is_prime
  composite-small m le lt = rw (passes-small m le lt) refl

module _ (sqrt : ℕ → ℕ) (floor : (n : ℕ) → IsRoot n (sqrt n)) where
  is_prime-IsPrime : (n : ℕ) → 24 ≤ n → is_prime sqrt n ≡ true → IsPrime n
  unfolding is_prime
  is_prime-IsPrime n big h =
      let p : passes n first ≡ true = ground arith in
      let q : passes_from n 29 (sqrt n + 1 - 29) ≡ true = ground arith in
      (
        omega arith,
        λ d two lt e. elim (Bool-cases (ltb (sqrt n) d)) [
          | inr small ↦ passes-ne n (sqrt n) d p q two (ground arith) e
          | inl large ↦
              passes-ne n (sqrt n) (n / d) p q (quotient-ge n d e lt)
                (quotient-le n (sqrt n) d (floor n) e (ground arith)) (mod-quotient n d e)
        ],
      )

  is_prime-true : (n : ℕ) → 24 ≤ n → IsPrime n → is_prime sqrt n ≡ true
  unfolding is_prime in_table
  is_prime-true n big (two, none_divides) =
      let p = passes-true n first refl (λ d le lt. none_divides d le (omega arith)) in
      let q =
        passes_from-true n 29 (sqrt n + 1 - 29)
          (λ d le lt. none_divides d (omega arith) (root-lt n (sqrt n) d (floor n) le lt)) in
      rw p q

  -- Given a square root that is rounded down, is_prime holds of a number from 24 on exactly if it
  -- is a prime.
  pub is_prime_iff : (n : ℕ) → 24 ≤ n → (is_prime sqrt n ≡ true) ↔ IsPrime n
  is_prime_iff n big = (is_prime-IsPrime n big, is_prime-true n big)

  -- Given a square root that is rounded down, is_prime holds of no number below 24 but 1, so that
  -- it turns down the primes of its own table.
  pub is_prime-small : (n : ℕ) → n < 24 → is_prime sqrt n ≡ n == 1
  unfolding is_prime passes passes_from
  is_prime-small n lt = elim (Bool-cases (ltb 1 n)) [
    | inl large ↦ let p = passes-small n (ground arith) (omega arith) in rw p (ground arith)
    | inr small ↦ elim (Bool-cases (n == 0)) [
      | inl e ↦ ground arith
      | inr ne ↦
          let r = root-le 1 (sqrt 1) 1 (floor 1) (omega arith) in
          let e : n ≡ 1 = ground arith in
          let no_rounds : sqrt 1 + 1 - 29 ≡ 0 = omega arith in rw (e, no_rounds) refl
    ]
  ]

  prime-29 : is_prime sqrt 29 ≡ true
  unfolding is_prime passes passes_from
  prime-29 =
      let no_rounds : sqrt 29 + 1 - 29 ≡ 0 =
        omega (arith, root-le 29 (sqrt 29) 5 (floor 29) (omega arith)) in
      rw no_rounds refl

  -- The first size of a table is 29, whatever rounds the root.
  pub next_prime-four : (fuel : ℕ) → 25 ≤ fuel → next_prime sqrt fuel 4 ≡ some 29
  next_prime-four fuel le =
      next_prime-first sqrt fuel 4 29 (omega arith) (omega arith) (omega arith) prime-29
        (λ m l u. composite-small sqrt m (omega arith) u)
