-- ===== src/MemoryPool.antt =====
-- memory_pool/mem_pool.cpp: a free list of blocks. A read or write through a pointer to no block is
-- `none`. `supply i` is what the `i`th `new` of a constructor returns.
pub mod Chain
pub mod Build
use lighttable.Prelude.{
  ℕ, zero, suc, ◌+◌, ◌-◌, ◌^◌, true, false, Option, none, some, List, [], ◌∷◌, ◌==◌, if◌then◌else◌,
  replicate,
}
use lighttable.Prelude.Word.{to_int}

abbrev pub Ptr : Type 0
Ptr = ℕ

abbrev pub null : Ptr
null = 0

abbrev pub default_size : ℕ
default_size = 10

abbrev pub block_size : ℕ
block_size = 512

infixl 5 ◌>>=◌
abbrev pub ◌>>=◌ {ℓ κ} : {A : Type ℓ} {B : Type κ} → Option A → (A → Option B) → Option B
none >>= f = none
some a >>= f = f a

-- `struct memory_block`.
pub record Block : Type 0 where
  pub size : ℕ
  pub bytes : List ℕ
  pub next : Ptr

-- The data members of `class memory_pool`; its `trace` is never set nor read.
pub record Pool : Type 0 where
  pub len : ℕ
  pub head : Ptr

abbrev pub Blocks : Type 0
Blocks = Ptr → Option Block

abbrev pub put : Blocks → Ptr → Option Block → Blocks
put h p c a = if a == p then c else h a

-- Addresses of blocks. `NULL` is none.
unfoldable pub load : Blocks → Ptr → Option Block
load h p = if p == null then none else h p

-- `memory_block::memory_block`.
unfoldable pub new_block : ℕ → Block
new_block size = record { size = size; bytes = replicate size 0; next = null }

-- The loop of the constructor: `trace` is the block made last, and `i` an `int`, of which `++i` has
-- no meaning at its largest value: there the loop is none.
unfoldable pub extend : (supply : ℕ → Ptr) → (size rounds i : ℕ) → Ptr → Blocks → Option Blocks
extend supply size zero i trace h = some h
extend supply size (suc rounds) i trace h = elim (load h trace) [
  | none ↦ none
  | some t ↦
      let rest = extend supply size rounds (i + 1) (supply i) (
        put (put h (supply i) (some (new_block size))) trace
          (some (record t { next = supply i }))) in
      if i == 2 ^ 31 - 1 then none else rest
]

unfoldable pub new_pool : (supply : ℕ → Ptr) → (init_len size : ℕ) → Blocks → Option (Pool × Blocks)
new_pool supply init_len size h =
    elim (extend supply size (init_len - 1) 1 (supply 0)
      (put h (supply 0) (some (new_block size)))) [
        | none ↦ none
        | some h' ↦ some (record { len = init_len; head = supply 0 }, h')
      ]

-- `get_instance`, over the static member `instance`.
unfoldable pub get_instance :
    (supply : ℕ → Ptr) → Option Pool → Blocks → Option (Pool × Option Pool × Blocks)
get_instance supply (some p) h = some (p, some p, h)
get_instance supply none h = elim (new_pool supply default_size block_size h) [
  | none ↦ none
  | some (p, h') ↦ some (p, some p, h')
]

unfoldable pub get_block : Pool → Blocks → Option (Ptr × Pool × Blocks)
get_block p h = elim (load h p.head) [
  | none ↦ none
  | some b ↦ some (p.head, record p { head = b.next }, h)
]

unfoldable pub free_block : Ptr → Pool → Blocks → Option (Pool × Blocks)
free_block b p h = elim (load h b) [
  | none ↦ none
  | some t ↦ some (record p { head = b }, put h b (some (record t { next = p.head })))
]

-- The `size_t` as an `int`.
unfoldable pub get_len : Pool → ℕ
get_len p = to_int p.len

pub data Deletion : Type 0 where
  deleted : Blocks → Deletion
  wild_access out_of_fuel : Deletion

-- The loop of `~memory_pool`: `temp` is the same pointer as `trace`, and is read after
-- `delete trace`.
unfoldable pub delete_blocks : ℕ → Ptr → Blocks → Deletion
delete_blocks zero trace h = out_of_fuel
delete_blocks (suc fuel) trace h = elim (trace == null) [
  | true ↦ deleted h
  | false ↦ elim (load h trace) [
    | none ↦ wild_access
    | some _ ↦ elim (load (put h trace none) trace) [
      | none ↦ wild_access
      | some temp ↦ delete_blocks fuel temp.next (put h trace none)
    ]
  ]
]
