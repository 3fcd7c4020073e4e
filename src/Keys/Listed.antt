-- ===== src/Keys/Listed.antt =====
-- What table::keys lists.
use lighttable.Prelude.{
  ℕ, zero, suc, ◌+◌, ◌-◌, ◌*◌, ◌≡◌, refl, ◌≤◌, ◌<◌, List, [], ◌∷◌, ◌++◌, true, leb, ltb, length,
  take, arith, Bool-cases, inl, inr, ap, ◌∙◌, sym, length-append,
}
use mathlib.Core.List.{append_assoc, append-nil}
use lighttable.Prelude.Word.{IsInt, to_size-to_int}
use lighttable.Struct.{TableKey}
use lighttable.Lmap.{Node}
use Prim.Native.Nat.{min}
use lighttable.Lmap.Count.{entries}
use lighttable.State.{State, ok, ◌>>=◌}
use lighttable.Table.{max_hash_depth, grab_map, release_map}
use lighttable.Table.Valid.{IsTable, at_rest, by_rest}
use lighttable.Keys.{size, filled, keys_chain, keys_buckets, within, limit_of, keys}

-- The keys of a chain, and of all chains, in the order of the loops.
unfoldable pub chain_keys : List Node → List TableKey
chain_keys [] = []
chain_keys (n ∷ c) = filled n.key n.v.type ∷ chain_keys c

unfoldable pub all_keys : List (List Node) → List TableKey
all_keys [] = []
all_keys (c ∷ cs) = chain_keys c ++ all_keys cs

take-append_short {ℓ} :
    {A : Type ℓ} (n : ℕ) (xs ys : List A) → n < length xs → take n (xs ++ ys) ≡ take n xs
take-append_short n [] ys h = elim h [ ]
take-append_short zero (x ∷ xs) ys h = refl
take-append_short (suc n) (x ∷ xs) ys h = ap (λ r. x ∷ r) (take-append_short n xs ys (omega arith))

take-append_long {ℓ} :
    {A : Type ℓ} (n : ℕ) (xs ys : List A)
    → length xs ≤ n
    → take n (xs ++ ys) ≡ xs ++ take (n - length xs) ys
take-append_long n [] ys h = let e : n - 0 ≡ n = omega arith in rw e refl
take-append_long zero (x ∷ xs) ys h = elim h [ ]
take-append_long (suc n) (x ∷ xs) ys h =
    let e : suc n - suc (length xs) ≡ n - length xs = omega arith in
    rw e (ap (λ r. x ∷ r) (take-append_long n xs ys (omega arith)))

pub take_all {ℓ} : {A : Type ℓ} (n : ℕ) (xs : List A) → length xs ≤ n → take n xs ≡ xs
take_all zero [] h = refl
take_all (suc n) [] h = refl
take_all zero (x ∷ xs) h = elim h [ ]
take_all (suc n) (x ∷ xs) h = ap (λ r. x ∷ r) (take_all n xs (omega arith))

take-nil {ℓ} : (A : Type ℓ) (n : ℕ) → take {A = A} n [] ≡ []
take-nil A zero = refl
take-nil A (suc n) = refl

module _ (limit : ℕ) where
  -- The loop over a chain adds its keys as far as there is room, and returns where there is none.
  keys_chain-take :
      (c : List Node) (vv : List TableKey)
      → length vv ≤ limit
      → ((keys_chain limit c vv).0 ≡ vv ++ take (limit - length vv) (chain_keys c))
        × ((keys_chain limit c vv).1 ≡ ltb (limit - length vv) (length (chain_keys c)))
  unfolding keys_chain chain_keys
  keys_chain-take [] vv le =
      (rw (take-nil TableKey (limit - length vv)) (sym (append-nil vv)), ground arith)
  keys_chain-take (n ∷ c) vv le = elim (Bool-cases (leb limit (length vv))) [
    | inl full ↦
        let e : limit - length vv ≡ 0 = ground arith in
        (rw (full, e) (sym (append-nil vv)), rw (full, e) (ground arith))
    | inr more ↦
        let e : limit - length vv ≡ suc (limit - suc (length vv)) = ground arith in
        let l : length (vv ++ filled n.key n.v.type ∷ []) ≡ suc (length vv) =
          omega (arith, length-append vv (filled n.key n.v.type ∷ [])) in
        let (listed, early) =
          keys_chain-take c (vv ++ filled n.key n.v.type ∷ []) (rw l (ground arith)) in
        (
          rw (more, e, listed, l) (append_assoc vv (filled n.key n.v.type ∷ []) _),
          rw (more, e, early, l) (ground arith),
        )
  ]

  keys_buckets-take :
      (cs : List (List Node)) (vv : List TableKey)
      → length vv ≤ limit
      → keys_buckets limit cs vv ≡ vv ++ take (limit - length vv) (all_keys cs)
  unfolding keys_buckets all_keys
  keys_buckets-take [] vv le = rw (take-nil TableKey (limit - length vv)) (sym (append-nil vv))
  keys_buckets-take (c ∷ cs) vv le =
      let room = limit - length vv in
      let (listed, early) = keys_chain-take c vv le in
      elim (Bool-cases (ltb room (length (chain_keys c)))) [
        | inl short ↦
            rw
              (
                early,
                short,
                listed,
                take-append_short room (chain_keys c) (all_keys cs) (ground arith),
              )
              refl
        | inr long ↦
            let fits : length (chain_keys c) ≤ room = ground arith in
            let l : length (vv ++ chain_keys c) ≡ length vv + length (chain_keys c) =
              length-append vv (chain_keys c) in
            let e : limit - (length vv + length (chain_keys c)) ≡ room - length (chain_keys c) =
              omega arith in
            let now : (keys_chain limit c vv).0 ≡ vv ++ chain_keys c =
              listed ∙ ap (λ r. vv ++ r) (take_all room (chain_keys c) fits) in
            rw
              (
                early,
                long,
                now,
                keys_buckets-take cs (vv ++ chain_keys c) (rw l (omega arith)),
                l,
                e,
                take-append_long room (chain_keys c) (all_keys cs) fits,
              )
              (append_assoc vv (chain_keys c) _)
      ]

pub length-take {ℓ} : {A : Type ℓ} (n : ℕ) (xs : List A) → length (take n xs) ≡ min n (length xs)
length-take zero xs = omega arith
length-take (suc n) [] = omega arith
length-take (suc n) (x ∷ xs) = omega (arith, length-take n xs)

pub keys-take :
    (s : State) (cap : ℕ)
    → IsTable s.table
    → 0 < cap
    → keys cap s ≡ ok (take (limit_of cap) (all_keys s.table.map.buckets)) s
unfolding keys grab_map release_map
keys-take s cap quiet pos =
    let e : limit_of cap - 0 ≡ limit_of cap = omega arith in
    let listed =
      keys_buckets-take (limit_of cap) s.table.map.buckets [] (omega arith)
      ∙ ap (λ n. take n (all_keys s.table.map.buckets)) e in
    let fits : leb (length (take (limit_of cap) (all_keys s.table.map.buckets))) cap ≡ true =
      ground (arith, length-take (limit_of cap) (all_keys s.table.map.buckets)) in
    by_rest (λ s'. keys cap s' ≡ ok (take (limit_of cap) (all_keys s'.table.map.buckets)) s') s
      quiet (ap (λ vv. within cap vv (at_rest s)) listed ∙ rw fits refl)

pub size-ok :
    (s : State)
    → IsTable s.table
    → IsInt (s.table.map.size * max_hash_depth)
    → size s ≡ ok (s.table.map.size * max_hash_depth) s
unfolding size grab_map release_map
size-ok s quiet =
    by_rest
      (λ s'.
        IsInt (s'.table.map.size * max_hash_depth)
        → size s' ≡ ok (s'.table.map.size * max_hash_depth) s')
      s quiet (λ small. ap (λ n. ok n (at_rest s)) (to_size-to_int _ small))

length-chain_keys : (c : List Node) → length (chain_keys c) ≡ length c
unfolding chain_keys
length-chain_keys [] = refl
length-chain_keys (n ∷ c) = ap suc (length-chain_keys c)

pub length-all_keys : (cs : List (List Node)) → length (all_keys cs) ≡ entries cs
unfolding all_keys entries
length-all_keys [] = refl
length-all_keys (c ∷ cs) =
    omega
      (arith, length-append (chain_keys c) (all_keys cs), length-chain_keys c, length-all_keys cs)

module _ (s : State) (quiet : IsTable s.table)
    (small : IsInt (s.table.map.size * max_hash_depth)) where
  -- On a table that no method works on, with 7 times as many slots as an int can hold at most, keys
  -- with the room that size returns gives the entries in the order of the chains, but at most one
  -- fewer than seven for each slot: the number listed is the smaller of that and the number of
  -- entries.
  pub keys-size :
      ((size >>= keys) s ≡ ok (take (s.table.map.size * 7 - 1) (all_keys s.table.map.buckets)) s)
      × (length (take (s.table.map.size * 7 - 1) (all_keys s.table.map.buckets))
          ≡ min (s.table.map.size * 7 - 1) (entries s.table.map.buckets))
  keys-size =
      let e : limit_of (s.table.map.size * 7) ≡ s.table.map.size * 7 - 1 =
        omega (arith, quiet.map.pos) in
      (
        rw (size-ok s quiet small, ← e)
            (keys-take s (s.table.map.size * 7) quiet (omega (arith, quiet.map.pos))),
        length-take (s.table.map.size * 7 - 1) (all_keys s.table.map.buckets)
            ∙ ap (λ n. min (s.table.map.size * 7 - 1) n) (length-all_keys s.table.map.buckets),
      )
