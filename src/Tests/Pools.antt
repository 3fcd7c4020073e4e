-- ===== src/Tests/Pools.antt =====
-- The theorems on mem_pool.cpp at pools of a few blocks.
use lighttable.Prelude.{ℕ, ◌+◌, ◌≡◌, refl, ◌≢◌, none, some, [], ◌∷◌, arith, ◌==◌, if◌then◌else◌}
use lighttable.MemoryPool.{
  Ptr, Block, Pool, Blocks, ◌>>=◌, new_pool, get_instance, get_block, free_block, get_len,
  delete_blocks, wild_access,
}
use lighttable.MemoryPool.Chain.{
  Chain, nil, cons, get_block-free_block, free_block-twice, delete_blocks-wild,
}
use lighttable.MemoryPool.Build.{
  supplied, IsSupply, new_pool-Chain, get_instance-once, get_blocks, get_blocks-all,
}

abbrev counter : ℕ → Ptr
counter i = i + 1

counter-IsSupply : IsSupply counter
counter-IsSupply = record { ne_null = λ i. omega arith; distinct = λ i j lt. omega arith }

abbrev empty : Blocks
empty = λ p. none

abbrev first_block : Block
first_block = record { size = 1; bytes = 0 ∷ []; next = 2 }

abbrev second_block : Block
second_block = record { size = 1; bytes = 0 ∷ []; next = 0 }

abbrev two_blocks : Blocks
two_blocks = λ p. if p == 1 then some first_block else (if p == 2 then some second_block else none)

abbrev pool : Pool
pool = record { len = 2; head = 1 }

two_blocks-Chain : Chain two_blocks 1 (1 ∷ 2 ∷ [])
two_blocks-Chain =
    cons {t = first_block} (omega arith) refl refl
      (cons {t = second_block} (omega arith) refl refl nil)

new_pool-Chain_example :
    (p : Pool) × (h' : Blocks) × (new_pool counter 3 512 empty ≡ some (p, h'))
    × Chain h' p.head (supplied counter 0 3)
    × (p.len ≡ 3)
new_pool-Chain_example = new_pool-Chain counter counter-IsSupply 512 3 empty (omega arith)

get_instance-once_example :
    (p : Pool) × (h' : Blocks) × (get_instance counter none empty ≡ some (p, some p, h'))
    × (get_instance counter (some p) h' ≡ some (p, some p, h'))
    × Chain h' p.head (supplied counter 0 10)
    × (get_len p ≡ 10)
get_instance-once_example = get_instance-once counter counter empty counter-IsSupply

get_blocks-all_example :
    (p' : Pool) × (get_blocks 2 pool two_blocks ≡ some (1 ∷ 2 ∷ [], p'))
    × (get_block p' two_blocks ≡ none)
    × (p'.len ≡ 2)
get_blocks-all_example = get_blocks-all two_blocks pool (1 ∷ 2 ∷ []) two_blocks-Chain

get_block-free_block_example :
    (h' : Blocks) × ((free_block 2 pool two_blocks >>= λ (p', g). get_block p' g)
      ≡ some (2, pool, h'))
    × (h' 2 ≡ some (record second_block { next = 1 }))
    × ((a : Ptr) → a ≢ 2 → h' a ≡ two_blocks a)
get_block-free_block_example =
    get_block-free_block two_blocks pool 2 second_block (omega arith) refl

delete_blocks-wild_example : delete_blocks 3 1 two_blocks ≡ wild_access
delete_blocks-wild_example = delete_blocks-wild 2 two_blocks 1 (omega arith)

free_block-twice_example :
    (p' : Pool) × (h' : Blocks) × ((free_block 2 pool two_blocks >>= λ (p₁, h₁). free_block 2 p₁ h₁)
      ≡ some (p', h'))
    × (get_block p' h' ≡ some (2, p', h'))
free_block-twice_example = free_block-twice two_blocks pool 2 second_block (omega arith) refl
