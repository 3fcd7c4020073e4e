-- ===== src/MemoryPool/Chain.antt =====
-- The free list of mem_pool.cpp: get_block, free_block and the destructor.
use lighttable.Prelude.{
  ℕ, suc, ◌≡◌, refl, ◌≢◌, Bool, true, false, ◌||◌, none, some, List, [], ◌∷◌, ◌==◌, arith, ap, ◌∙◌,
}
use lighttable.MemoryPool.{
  ◌>>=◌, Ptr, null, Block, Pool, Blocks, put, load, get_block, free_block, delete_blocks,
  wild_access,
}

abbrev pub has : Ptr → List Ptr → Bool
has a [] = false
has a (b ∷ bs) = a == b || has a bs

-- From `p` the `next` pointers lead through the distinct blocks `bs` to NULL.
pub data Chain (h : Blocks) : Ptr → List Ptr → Type 0 where
  nil : Chain h null []
  cons :
      {b : Ptr} {t : Block} {bs : List Ptr}
      → b ≢ null
      → h b ≡ some t
      → has b bs ≡ false
      → Chain h t.next bs
      → Chain h b (b ∷ bs)

pub nil-null : {h : Blocks} {q : Ptr} → Chain h q [] → q ≡ null
nil-null nil = refl

-- A chain is not touched by writes to other blocks.
pub Chain-frame :
    {h g : Blocks} {p : Ptr} {bs : List Ptr}
    → Chain h p bs
    → ((a : Ptr) → has a bs ≡ true → g a ≡ h a)
    → Chain g p bs
Chain-frame nil same = nil
Chain-frame (cons {b} {t} ne at out rest) same =
    cons {t = t} ne (ground (arith, same b)) out (Chain-frame rest (λ a i. same a (ground arith)))

pub load-some : (h : Blocks) (b : Ptr) {t : Block} → b ≢ null → h b ≡ some t → load h b ≡ some t
unfolding load
load-some h b ne at = ground arith

get_block-some :
    (h : Blocks) (p : Pool) {t : Block}
    → p.head ≢ null
    → h p.head ≡ some t
    → get_block p h ≡ some (p.head, record p { head = t.next }, h)
unfolding get_block
get_block-some h p ne at = rw (load-some h p.head ne at, get_block) refl

free_block-some :
    (h : Blocks) (p : Pool) (b : Ptr) {t : Block}
    → b ≢ null
    → h b ≡ some t
    → free_block b p h ≡ some (record p { head = b }, put h b (some (record t { next = p.head })))
unfolding free_block
free_block-some h p b ne at = rw (load-some h b ne at, free_block) refl

module _ (h : Blocks) (p : Pool) where
  -- An empty pool has no block to give: `get_block` reads through NULL.
  pub get_block-empty : p.head ≡ null → get_block p h ≡ none
  unfolding get_block load
  get_block-empty e = ground arith

-- The first block of a chain, taken off.
record Uncons (h : Blocks) (q b : Ptr) (bs : List Ptr) : Type 0 where
  block : Block
  head_is : q ≡ b
  ne_null : q ≢ null
  there : h q ≡ some block
  apart : has q bs ≡ false
  rest : Chain h block.next bs

uncons : {h : Blocks} {q b : Ptr} {bs : List Ptr} → Chain h q (b ∷ bs) → Uncons h q b bs
uncons (cons {t} ne at out rest) = record {
  block = t;
  head_is = refl;
  ne_null = ne;
  there = at;
  apart = out;
  rest = rest;
}

module _ (h : Blocks) (p : Pool) (b : Ptr) (bs : List Ptr) where
  -- `get_block` gives the first block of the list and keeps the rest; blocks and length stay.
  pub get_block-cons :
      Chain h p.head (b ∷ bs)
      → (p' : Pool) × (get_block p h ≡ some (b, p', h))
        × Chain h p'.head bs
        × (p'.len ≡ p.len)
        × (has b bs ≡ false)
  get_block-cons c =
      let u = uncons c in
      (
        record p { head = u.block.next },
        get_block-some h p u.ne_null u.there
            ∙ ap (λ q. some (q, record p { head = u.block.next }, h)) u.head_is,
        u.rest,
        refl,
        rw u.head_is at u.apart,
      )

  pub free_block-cons :
      (t : Block)
      → Chain h p.head bs
      → b ≢ null
      → h b ≡ some t
      → has b bs ≡ false
      → (h' : Blocks) × (free_block b p h ≡ some (record p { head = b }, h'))
        × Chain h' b (b ∷ bs)
        × ((a : Ptr) → a ≢ b → h' a ≡ h a)
  free_block-cons t c ne at out =
      let h' = put h b (some (record t { next = p.head })) in
      (
        h',
        free_block-some h p b ne at,
        cons {t = record t { next = p.head }} ne (ground arith) out
            (Chain-frame c (λ a i. ground arith)),
        λ a d. ground arith,
      )

module _ (h : Blocks) (p : Pool) (b : Ptr) where
  -- A block that is given to free_block is what the next get_block gives; the pool is then what it
  -- was before, the block keeps its bytes with next set to the old head, and no other block is
  -- changed.
  pub get_block-free_block :
      (t : Block)
      → b ≢ null
      → h b ≡ some t
      → (h' : Blocks) × ((free_block b p h >>= λ (p', g). get_block p' g) ≡ some (b, p, h'))
        × (h' b ≡ some (record t { next = p.head }))
        × ((a : Ptr) → a ≢ b → h' a ≡ h a)
  get_block-free_block t ne at =
      let h' = put h b (some (record t { next = p.head })) in
      let now : h' b ≡ some (record t { next = p.head }) = ground arith in
      (
        h',
        rw (free_block-some h p b ne at, get_block-some h' (record p { head = b }) ne now) refl,
        now,
        λ a d. ground arith,
      )

  -- After two calls of free_block with the same block, get_block gives that block and leaves the
  -- pool and the blocks as they were, so that it gives it again at every later call.
  pub free_block-twice :
      (t : Block)
      → b ≢ null
      → h b ≡ some t
      → (p' : Pool) × (h' : Blocks) × ((free_block b p h >>= λ (p₁, h₁). free_block b p₁ h₁)
          ≡ some (p', h'))
        × (get_block p' h' ≡ some (b, p', h'))
  free_block-twice t ne at =
      let h₁ = put h b (some (record t { next = p.head })) in
      let t₁ : h₁ b ≡ some (record t { next = p.head }) = ground arith in
      let h₂ = put h₁ b (some (record t { next = b })) in
      let t₂ : h₂ b ≡ some (record t { next = b }) = ground arith in
      (
        record p { head = b },
        h₂,
        rw (free_block-some h p b ne at, free_block-some h₁ (record p { head = b }) b ne t₁) refl,
        get_block-some h₂ (record p { head = b }) ne t₂,
      )

-- The destructor of a pool with a block, given at least one round, reads a block that it has freed.
pub delete_blocks-wild :
    (fuel : ℕ) (h : Blocks) (p : Ptr) → p ≢ null → delete_blocks (suc fuel) p h ≡ wild_access
unfolding delete_blocks load
delete_blocks-wild fuel h p ne = ground arith
