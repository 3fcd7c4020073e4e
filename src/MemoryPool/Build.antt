-- ===== src/MemoryPool/Build.antt =====
-- The constructor of mem_pool.cpp, and get_instance.
use lighttable.Prelude.{
  ℕ, zero, suc, ◌+◌, ◌-◌, ◌≡◌, refl, ◌≢◌, ◌<◌, ◌==◌, ◌^◌, false, Option, none, some, List, [], ◌∷◌,
  arith, ap, ◌∙◌, length,
}
use lighttable.Prelude.Word.{IsInt}
use lighttable.MemoryPool.{
  Ptr, null, Block, Pool, Blocks, put, new_block, extend, new_pool, get_instance, get_len,
  get_block, default_size, block_size,
}
use lighttable.MemoryPool.Chain.{
  has, Chain, cons, nil, load-some, nil-null, get_block-empty, get_block-cons,
}

-- The addresses that `new` returns from its `i`th call on.
unfoldable pub supplied : (supply : ℕ → Ptr) → ℕ → ℕ → List Ptr
supplied supply i zero = []
supplied supply i (suc n) = supply i ∷ supplied supply (i + 1) n

-- `new` returns no NULL, and no block twice.
pub record IsSupply (supply : ℕ → Ptr) : Type 0 where
  pub ne_null : (i : ℕ) → supply i ≢ null
  pub distinct : (i j : ℕ) → i < j → supply i ≢ supply j

new_block-next : (size : ℕ) → (new_block size).next ≡ null
unfolding new_block
new_block-next size = refl

module _ (supply : ℕ → Ptr) (fresh : IsSupply supply) (size : ℕ) where
  not_supplied : (i j n : ℕ) → i < j → has (supply i) (supplied supply j n) ≡ false
  unfolding supplied
  not_supplied i j zero lt = refl
  not_supplied i j (suc n) lt =
      ground (arith, fresh.distinct i j lt, not_supplied i (j + 1) n (omega arith))

  pub length-supplied : (i n : ℕ) → length (supplied supply i n) ≡ n
  unfolding supplied
  length-supplied i zero = refl
  length-supplied i (suc n) = ap suc (length-supplied (i + 1) n)

  -- The loop makes a chain from the block that was last made.
  extend-Chain :
      (rounds i : ℕ) (h : Blocks) (t : Block)
      → IsInt (rounds + i + 1)
      → h (supply i) ≡ some t
      → t.next ≡ null
      → (h' : Blocks) × (extend supply size rounds (i + 1) (supply i) h ≡ some h')
        × Chain h' (supply i) (supplied supply i (suc rounds))
        × ((j : ℕ) → j < i → h' (supply j) ≡ h (supply j))
  unfolding extend supplied
  extend-Chain zero i h t small at last =
      (h, refl, cons {t = t} (fresh.ne_null i) at refl (rw last nil), λ j lt. refl)
  extend-Chain (suc rounds) i h t small at last =
      let q = supply (i + 1) in
      let linked : Block = record t { next = q } in
      let h₁ = put (put h q (some (new_block size))) (supply i) (some linked) in
      let ne = fresh.distinct i (i + 1) (omega arith) in
      let made : h₁ q ≡ some (new_block size) = ground arith in
      let (h', run, chain, same) =
        extend-Chain rounds (i + 1) h₁ (new_block size) (omega (arith, small)) made
          (new_block-next size) in
      let below : (i + 1 == 2 ^ 31 - 1) ≡ false = ground (arith, small) in
      let kept : h' (supply i) ≡ some linked = same i (omega arith) ∙ (ground arith) in
      (
        h',
        rw (load-some h (supply i) (fresh.ne_null i) at, extend, below) run,
        cons {t = linked} (fresh.ne_null i) kept (not_supplied i (i + 1) (suc rounds) (omega arith))
            chain,
        λ j lt.
            same j (omega arith) ∙ ground (arith, fresh.distinct j i lt, fresh.distinct j (i + 1)),
      )

  -- If new returns no NULL and no address twice and init_len is one that an int can hold, the
  -- constructor of the pool makes a list of init_len distinct blocks in the order in which new returned them, of one block where init_len
  -- is 0, and keeps init_len as the length.
  pub new_pool-Chain :
      (init_len : ℕ) (h : Blocks)
      → IsInt init_len
      → (p : Pool) × (h' : Blocks) × (new_pool supply init_len size h ≡ some (p, h'))
        × Chain h' p.head (supplied supply 0 (suc (init_len - 1)))
        × (p.len ≡ init_len)
  unfolding new_pool
  new_pool-Chain init_len h small =
      let h₀ = put h (supply 0) (some (new_block size)) in
      let made : h₀ (supply 0) ≡ some (new_block size) = ground arith in
      let (h', run, chain, _) =
        extend-Chain (init_len - 1) 0 h₀ (new_block size) (omega (arith, small)) made
          (new_block-next size) in
      (record { len = init_len; head = supply 0 }, h', rw (run, new_pool) refl, chain, refl)

-- If new returns no NULL and no address twice, the first get_instance makes a pool whose list has
-- ten distinct blocks and whose get_len is 10, and a later one gives the same pool and makes
-- nothing.
pub get_instance-once :
    (supply later : ℕ → Ptr) (h : Blocks)
    → IsSupply supply
    → (p : Pool) × (h' : Blocks) × (get_instance supply none h ≡ some (p, some p, h'))
      × (get_instance later (some p) h' ≡ some (p, some p, h'))
      × Chain h' p.head (supplied supply 0 10)
      × (get_len p ≡ 10)
unfolding get_instance get_len
get_instance-once supply later h fresh =
    let (p, h', run, chain, len) =
      new_pool-Chain supply fresh block_size default_size h (omega arith) in
    (p, h', rw (run, get_instance) refl, refl, chain, rw len refl)

-- `get_block` called `n` times.
unfoldable pub get_blocks : ℕ → Pool → Blocks → Option (List Ptr × Pool)
get_blocks zero p h = some ([], p)
get_blocks (suc n) p h = elim (get_block p h) [
  | none ↦ none
  | some (b, p', h') ↦ elim (get_blocks n p' h') [ none ↦ none | some (bs, q) ↦ some (b ∷ bs, q) ]
]

-- From a pool whose list holds the distinct blocks bs, as many calls of get_block as there are
-- blocks give each of them once, in the order of the list, and leave the length as it was; one call
-- more reads through NULL.
pub get_blocks-all :
    (h : Blocks) (p : Pool) (bs : List Ptr)
    → Chain h p.head bs
    → (p' : Pool) × (get_blocks (length bs) p h ≡ some (bs, p'))
      × (get_block p' h ≡ none)
      × (p'.len ≡ p.len)
unfolding get_blocks
get_blocks-all h p [] c = (p, refl, get_block-empty h p (nil-null c), refl)
get_blocks-all h p (b ∷ bs) c =
    let (p₁, run, rest, len, _) = get_block-cons h p b bs c in
    let (p', runs, spent, same) = get_blocks-all h p₁ bs rest in
    (p', rw (run, get_blocks, runs, get_blocks) refl, spent, same ∙ len)
