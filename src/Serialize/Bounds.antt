-- ===== src/Serialize/Bounds.antt =====
-- The bounds of the buffer that serialize of lighttable.cpp writes to.
use lighttable.Prelude.{
  ℕ, ◌≡◌, ◌≤◌, [], ◌∷◌, ◌++◌, ltb, ◌==◌, length, take, arith, ap, sym, Bool-cases, inl, inr,
  length-append, take-length-append,
}
use mathlib.Core.List.{append_assoc, append-nil}
use lighttable.Struct.{Bytes}
use lighttable.Keys.Listed.{take_all, length-take}
use lighttable.Serialize.{c_string, buf_size, add_string_to_buff}

take-full : (xs ys : Bytes) (n : ℕ) → length xs ≡ n → take n (xs ++ ys) ≡ xs
take-full xs ys n e = rw (← e) (take-length-append xs ys)

whole : (buff : Bytes) → length buff ≤ buf_size → take buf_size (buff ++ []) ≡ buff
whole buff fits = rw (append-nil buff) (take_all buf_size buff fits)

add_string_to_buff-take :
    (str buff : Bytes)
    → length buff ≤ buf_size
    → add_string_to_buff str buff ≡ take buf_size (buff ++ c_string str)
unfolding add_string_to_buff c_string
add_string_to_buff-take [] buff fits = sym (whole buff fits)
add_string_to_buff-take (c ∷ str) buff fits = elim (Bool-cases (c == 0)) [
  | inl zero ↦ rw zero (sym (whole buff fits))
  | inr more ↦ elim (Bool-cases (ltb (length buff) buf_size)) [
    | inl room ↦
        let l : length (buff ++ c ∷ []) ≤ buf_size = ground (arith, length-append buff (c ∷ [])) in
        rw (more, room, add_string_to_buff-take str (buff ++ c ∷ []) l)
          (ap (λ b. take buf_size b) (append_assoc buff (c ∷ []) (c_string str)))
    | inr full ↦
        let e : length buff ≡ buf_size = ground arith in
        rw (more, full) (sym (take-full buff (c ∷ c_string str) buf_size e))
  ]
]

-- _add_string_to_buff appends to a buffer that is not overfull the bytes of the text before its
-- first zero, as far as the buffer has room, and never leaves more in the buffer than its size.
pub add_string_to_buff-bounded :
    (str buff : Bytes)
    → length buff ≤ buf_size
    → (add_string_to_buff str buff ≡ take buf_size (buff ++ c_string str))
      × (length (add_string_to_buff str buff) ≤ buf_size)
add_string_to_buff-bounded str buff fits =
    let e = add_string_to_buff-take str buff fits in
    (e, rw e (omega (arith, length-take buf_size (buff ++ c_string str))))
