-- ===== src/Util/Hash.antt =====
-- hash, new_string and cmp_string of ltutil.cpp: the slots that keys are given, and the comparison.
use lighttable.Prelude.{
  ℕ, zero, suc, ◌+◌, ◌-◌, ◌/◌, ◌%◌, ◌^◌, ◌<◌, ◌≡◌, refl, ◌↔◌, true, [], ◌∷◌, ◌++◌, arith, length,
  take, take-length-append, bit_and,
}
use Prim.Native.Nat.{bit_and-bitwise}
use lighttable.Prelude.Word.{and_digits, IsInt, bit_and-le, to_size-to_int}
use lighttable.Struct.{Bytes, Key, name, index}
use lighttable.Util.{hash_str, hash, same_bytes, cmp_string, new_string}

masked-lt : (h size : ℕ) → 0 < size → IsInt size → bit_and h ((size + 2 ^ 32 - 1) % 2 ^ 32) < size
masked-lt h size pos small = omega (arith, bit_and-le h ((size + 2 ^ 32 - 1) % 2 ^ 32))

hash_str-lt : (text : Bytes) (size : ℕ) → 0 < size → IsInt size → hash_str text size < size
unfolding hash_str
hash_str-lt text size = masked-lt _ size

-- The hash of any key, a name or a number, is below the size of the map, for every size from 1 that
-- an int can hold.
pub hash-lt : (k : Key) (size : ℕ) → 0 < size → IsInt size → hash k size < size
unfolding hash
hash-lt (name text) size pos small = hash_str-lt text size pos small
hash-lt (index num) size pos small = ground arith

pub same_bytes_iff : (xs ys : Bytes) → (same_bytes xs ys ≡ true) ↔ (xs ≡ ys)
unfolding same_bytes
same_bytes_iff [] [] = ground arith
same_bytes_iff [] (y ∷ ys) = ground arith
same_bytes_iff (x ∷ xs) [] = ground arith
same_bytes_iff (x ∷ xs) (y ∷ ys) = ground (arith, same_bytes_iff xs ys)

same_bytes_refl : (xs : Bytes) → same_bytes xs xs ≡ true
same_bytes_refl xs = (same_bytes_iff xs xs).1 refl

cmp_string_self : (xs : Bytes) → IsInt (length xs) → cmp_string (new_string xs) xs ≡ true
unfolding cmp_string new_string
cmp_string_self xs h =
    rw (take-length-append xs (0 ∷ []), same_bytes_refl xs)
      (ground (arith, to_size-to_int (length xs)))

cmp_string-eq : (xs ys : Bytes) → IsInt (length xs) → cmp_string (new_string xs) ys ≡ true → xs ≡ ys
unfolding cmp_string new_string
cmp_string-eq xs ys h e =
    let same : length xs ≡ length ys = ground (arith, to_size-to_int (length xs)) in
    let read : same_bytes (take (length ys) (xs ++ 0 ∷ [])) ys ≡ true = ground arith in
    let text : same_bytes xs ys ≡ true = rw (← same, take-length-append xs (0 ∷ [])) at read in
    (same_bytes_iff xs ys).0 text

-- For a text whose length an int can hold, the slot that new_string makes of it compares equal by
-- cmp_string with exactly the same bytes.
pub cmp_string-new_string :
    (xs ys : Bytes) → IsInt (length xs) → (cmp_string (new_string xs) ys ≡ true) ↔ (xs ≡ ys)
cmp_string-new_string xs ys h = (cmp_string-eq xs ys h, λ e. rw (← e) (cmp_string_self xs h))

and_digits-even : (n a b : ℕ) → b % 2 ≡ 0 → and_digits n a b % 2 ≡ 0
and_digits-even zero a b h = refl
and_digits-even (suc n) zero b h = refl
and_digits-even (suc n) (suc a) b h = omega arith

and_digits-four : (n a b : ℕ) → b % 4 ≡ 0 → and_digits n a b % 4 ≡ 0
and_digits-four zero a b h = refl
and_digits-four (suc n) zero b h = refl
and_digits-four (suc n) (suc a) b h =
    omega (arith, and_digits-even n (suc a / 2) (b / 2) (omega arith))

-- In a map whose size, below 2^32, leaves the remainder 1 by 4, as the first size of a table does,
-- hash_str gives every name a slot that is a multiple of 4.
pub hash_str-four :
    (text : Bytes) (size : ℕ) → size < 2 ^ 32 → size % 4 ≡ 1 → hash_str text size % 4 ≡ 0
unfolding hash_str
hash_str-four text size small h = masked-four _ ((size + 2 ^ 32 - 1) % 2 ^ 32) (omega arith)
  where
    masked-four : (h b : ℕ) → b % 4 ≡ 0 → bit_and h b % 4 ≡ 0
    masked-four h b e = rw (bit_and-bitwise h b) (and_digits-four h h b e)
