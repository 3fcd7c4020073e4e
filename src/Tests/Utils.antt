-- ===== src/Tests/Utils.antt =====
-- The theorems on ltutil.cpp at small inputs.
use lighttable.Prelude.{
  ℕ, zero, suc, ◌+◌, ◌*◌, ◌≡◌, refl, ◌↔◌, true, some, [], ◌∷◌, arith, inl, inr, leb, if◌then◌else◌,
  Bool-cases, ◌==◌,
}
use lighttable.Util.{hash, new_string, cmp_string, is_prime, next_prime}
use lighttable.Util.Hash.{cmp_string-new_string}
use lighttable.Util.Prime.{IsRoot, IsPrime, is_prime_iff, is_prime-small, next_prime-first}
use lighttable.Struct.{Bytes, name}

-- The square root, rounded down, by search from 0.
root : ℕ → ℕ
root zero = 0
root (suc n) = let r = root n in if leb ((r + 1) * (r + 1)) (suc n) then r + 1 else r

root-IsRoot : (n : ℕ) → IsRoot n (root n)
unfolding root
root-IsRoot zero = omega arith
root-IsRoot (suc n) = elim (Bool-cases (leb ((root n + 1) * (root n + 1)) (suc n))) [
  | inl up ↦ let (le, lt) = root-IsRoot n in rw up (ground arith, ground arith)
  | inr stay ↦ let (le, lt) = root-IsRoot n in rw stay (omega arith, ground arith)
]

abbrev abc : Bytes
abc = b'a' ∷ b'b' ∷ b'c' ∷ []

hash-abc : hash (name abc) 29 ≡ 20
unfolding hash
hash-abc = refl

cmp_string-new_string_example : (cmp_string (new_string abc) (b'a' ∷ []) ≡ true) ↔ (abc ≡ b'a' ∷ [])
cmp_string-new_string_example = cmp_string-new_string abc (b'a' ∷ []) (omega arith)

is_prime_iff_example : (is_prime root 29 ≡ true) ↔ IsPrime 29
is_prime_iff_example = is_prime_iff root root-IsRoot 29 (omega arith)

is_prime-small_example : is_prime root 23 ≡ 23 == 1
is_prime-small_example = is_prime-small root root-IsRoot 23 (omega arith)

next_prime-first_example : next_prime root 2 29 ≡ some 31
unfolding is_prime root
next_prime-first_example =
    next_prime-first root 2 29 31 (omega arith) (omega arith) (omega arith) refl
      (λ m l u. let e : m ≡ 30 = omega arith in rw e refl)
