-- ===== src/Prelude/Word.antt =====
-- Machine integers as bit patterns: a C `int` and a `uint32_t` are numbers below 2^32, a `size_t`
-- and a `uint64_t` are numbers below 2^64. Conversions between them are written out.
use Prim.Native.Nat.{
  ℕ, zero, suc, ◌+◌, ◌-◌, ◌/◌, ◌%◌, ◌*◌, ◌^◌, ◌≤◌, ◌<◌, min, bit_and, digits, bit_and-bitwise,
}
use mathlib.Core.Path.{◌≡◌, ap}
use native.Mathlib.Omega.{arith}
use native.Mathlib.Nat.{mul-le-mul_right, mul-le-mul_left, two-pow-succ, one-le-pow}
use lighttable.Prelude.Tests.{ltb, if◌then◌else◌}

-- `(int)n` and `(uint32_t)n` of a `size_t`: the low 32 bits.
abbrev pub to_int : ℕ → ℕ
to_int n = n % 2 ^ 32

-- `(size_t)i` of an `int`: the sign bit is copied upwards.
abbrev pub to_size : ℕ → ℕ
to_size i = if ltb i (2 ^ 31) then i else i + 2 ^ 64 - 2 ^ 32

-- A number that an `int` holds without a sign.
abbrev pub IsInt : ℕ → Type 0
IsInt n = n < 2 ^ 31

-- `__sync_add_and_fetch(&r, 1)` and `__sync_sub_and_fetch(&r, 1)` of an `int`.
abbrev pub raise : ℕ → ℕ
raise r = to_int (r + 1)

abbrev pub lower : ℕ → ℕ
lower r = to_int (r + 2 ^ 32 - 1)

pub to_size-to_int : (n : ℕ) → IsInt n → to_size (to_int n) ≡ n
to_size-to_int n h = ground arith

abbrev pub and_digits : ℕ → ℕ → ℕ → ℕ
and_digits n a b = digits (λ b. zero) min n a b

-- A mask only clears bits.
and_digits-le : (n a b : ℕ) → and_digits n a b ≤ b
and_digits-le zero a b = omega arith
and_digits-le (suc n) zero b = omega arith
and_digits-le (suc n) (suc a) b = omega (arith, and_digits-le n (suc a / 2) (b / 2))

pub bit_and-le : (a b : ℕ) → bit_and a b ≤ b
bit_and-le a b = rw (bit_and-bitwise a b) (and_digits-le a a b)

-- A size that at most doubles.
pub doubled : (a b m : ℕ) → a ≤ b * 2 → b * 2 ^ suc m ≤ 2 ^ 30 → a * 2 ^ m ≤ 2 ^ 30
doubled a b m le small =
    let grown : a * 2 ^ m ≤ b * 2 * 2 ^ m = mul-le-mul_right (2 ^ m) le in
    let e : b * 2 ^ suc m ≡ b * (2 ^ m + 2 ^ m) = ap (λ (x : ℕ). b * x) (two-pow-succ m) in
    grind arith

pub halved : (b m : ℕ) → 0 < b → b * 2 ^ suc m ≤ 2 ^ 30 → b < 2 ^ 30
halved b m pos small =
    let one : 1 ≤ 2 ^ m = one-le-pow m 2 (omega arith) in
    let two : 2 ≤ 2 ^ suc m = omega (arith, two-pow-succ m) in
    let grown : b * 2 ≤ b * 2 ^ suc m = mul-le-mul_left b two in omega (arith, grown, small)
