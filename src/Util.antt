-- ===== src/Util.antt =====
-- ltutil.cpp: the hash of a key, strings, and the primes from which the first table size comes.
-- The square root of the C library is a parameter of the prime test.
pub mod Hash
pub mod Prime
use lighttable.Prelude.{
  ℕ, zero, suc, ◌+◌, ◌-◌, ◌*◌, ◌/◌, ◌%◌, ◌^◌, Bool, true, false, ◌&&◌, Option, none, some, List, [],
  ◌∷◌, ◌++◌, bit_and, bit_xor, ltb, ◌==◌, if◌then◌else◌, length, take,
}
use lighttable.Prelude.Word.{to_int, to_size}
use lighttable.Struct.{Bytes, Key, name, index, StringSlot}

-- `(uint32_t)name[i]` of a signed `char`.
unfoldable pub char_word : ℕ → ℕ
char_word c = if ltb c 128 then c else c + 2 ^ 32 - 256

-- One round of the loop of `hash_str`.
unfoldable pub hash_round : ℕ → ℕ → ℕ
unfolding char_word
hash_round h c = bit_xor h ((h * 2 ^ 5 % 2 ^ 32 + h / 2 ^ 2 + char_word c) % 2 ^ 32)

unfoldable pub hash_loop : ℕ → Bytes → ℕ
unfolding hash_round
hash_loop h [] = h
hash_loop h (c ∷ text) = hash_loop (hash_round h c) text

-- The sizes are `int`s; the mask is `map_size - 1` in 32 bits.
unfoldable pub hash_str : Bytes → ℕ → ℕ
unfolding hash_loop
hash_str text map_size =
    bit_and (hash_loop (to_int (length text)) text) ((map_size + 2 ^ 32 - 1) % 2 ^ 32)

unfoldable pub mod_hash : ℕ → ℕ → ℕ
mod_hash numkey map_size = to_int (numkey % to_size map_size)

-- What `mul` does with doubles, given by their bits: a `size_t` times `GOLDEN`, `(int)d`, the double
-- of an `int`, a difference, and `(uint32_t)d`.
pub record Doubles : Type 0 where
  pub times_golden : ℕ → ℕ
  pub int_of : ℕ → ℕ
  pub of_int : ℕ → ℕ
  pub minus : ℕ → ℕ → ℕ
  pub word_of : ℕ → ℕ

-- The cast to `uint32_t` is of the difference, before the product.
pub mul : Doubles → ℕ → ℕ → ℕ
mul d numkey map_size =
    let val = d.times_golden numkey in
    d.word_of (d.minus val (d.of_int (d.int_of val))) * map_size % 2 ^ 32

unfoldable pub hash_num : ℕ → ℕ → ℕ
unfolding mod_hash
hash_num numkey map_size = mod_hash numkey map_size

unfoldable pub hash : Key → ℕ → ℕ
unfolding hash_str hash_num
hash (name text) map_size = hash_str text map_size
hash (index num) map_size = hash_num num map_size

-- `memcmp` of two texts that are read as far as the second goes.
unfoldable pub same_bytes : Bytes → Bytes → Bool
same_bytes [] [] = true
same_bytes [] (y ∷ ys) = false
same_bytes (x ∷ xs) [] = false
same_bytes (x ∷ xs) (y ∷ ys) = x == y && same_bytes xs ys

-- `b` is the `sz` bytes that the second and third argument give.
unfoldable pub cmp_string : StringSlot → Bytes → Bool
unfolding same_bytes
cmp_string a b = to_size a.sz == length b && same_bytes (take (length b) a.buf) b

unfoldable pub new_string : Bytes → StringSlot
new_string text = record { ref = 1; sz = to_int (length text); buf = text ++ 0 ∷ [] }

-- The table `first` of `is_prime`, up to its zero.
abbrev pub first : List ℕ
first = 2 ∷ 3 ∷ 5 ∷ 7 ∷ 11 ∷ 13 ∷ 17 ∷ 19 ∷ 23 ∷ []

-- Both loops of `is_prime`: over the table, and over `i` to `half`, on the rounds that are left.
unfoldable pub passes : ℕ → List ℕ → Bool
passes n [] = true
passes n (p ∷ ps) = if n % p == 0 then false else passes n ps

unfoldable pub passes_from : ℕ → ℕ → ℕ → Bool
passes_from n i zero = true
passes_from n i (suc rounds) = if n % i == 0 then false else passes_from n (i + 1) rounds

module _ (sqrt : ℕ → ℕ) where
  unfoldable pub is_prime : ℕ → Bool
  unfolding passes passes_from
  is_prime n = if passes n first then passes_from n 29 (sqrt n + 1 - 29) else false

  -- The loop on fuel; `none` means that the fuel ran out.
  unfoldable pub next_prime : ℕ → ℕ → Option ℕ
  unfolding is_prime
  next_prime zero n = none
  next_prime (suc fuel) n =
      let n' = (n + 1) % 2 ^ 32 in
      let rest = next_prime fuel n' in if is_prime n' then some n' else rest

  -- The loop of `find_double_prime`, on fuel, with fuel of its own for each `next_prime`.
  unfoldable pub double_from : ℕ → ℕ → ℕ → Option ℕ
  double_from zero steps k = none
  double_from (suc fuel) steps k = elim (next_prime steps k) [
    | none ↦ none
    | some k' ↦
        let twice = (k' * 2 + 1) % 2 ^ 32 in
        if is_prime twice then some twice else double_from fuel steps k'
  ]

  unfoldable pub find_double_prime : ℕ → ℕ → ℕ → Option ℕ
  unfolding double_from
  find_double_prime fuel steps n = double_from fuel steps (n / 2)
