-- ===== src/Slots/Owed.antt =====
-- Who has a string slot of lighttable.cpp while threads are at work: the references that each thread
-- has taken, the slots that it is to free, and the lock.
use lighttable.Prelude.{
  ℕ, zero, suc, ◌+◌, ◌<◌, ◌≡◌, Bool, true, false, Option, none, some, ◌==◌, if◌then◌else◌,
}
use lighttable.Prelude.Family.{sum}
use lighttable.State.{Ptr}
use lighttable.Table.{above_one}
use lighttable.Slots.{
  System, Thread, outside, grabbing, counted, holding, reading, freeing, made, swapping, replacing,
  swapped, lowered, deleting,
}

abbrev pub bit : Bool → ℕ
bit true = 1
bit false = 0

-- The references to the slot at `q` that a thread has, where the string's slot is at `s`.
abbrev pub claim : Ptr → Ptr → Thread → ℕ
claim s q outside = 0
claim s q grabbing = 0
claim s q (counted n) = bit (q == s)
claim s q (holding p) = bit (q == p)
claim s q (reading p) = bit (q == p)
claim s q (freeing p) = 0
claim s q (made p) = bit (q == p)
claim s q (swapping p) = bit (q == p)
claim s q (replacing p old) = bit (q == p)
claim s q (swapped old) = bit (q == old)
claim s q (lowered old n) = 0
claim s q (deleting old) = 0

-- Whether the thread is to free the slot at `q`.
abbrev pub frees : Ptr → Thread → ℕ
frees q (freeing p) = bit (q == p)
frees q (lowered old n) = if n == 0 then bit (q == old) else 0
frees q (deleting old) = bit (q == old)
frees q outside = 0
frees q grabbing = 0
frees q (counted n) = 0
frees q (holding p) = 0
frees q (reading p) = 0
frees q (made p) = 0
frees q (swapping p) = 0
frees q (replacing p old) = 0
frees q (swapped old) = 0

abbrev pub locks : Thread → ℕ
locks grabbing = 1
locks (counted n) = 1
locks (holding p) = 1
locks (swapping p) = 1
locks (replacing p old) = 1
locks (swapped old) = 1
locks (lowered old n) = 1
locks outside = 0
locks (reading p) = 0
locks (freeing p) = 0
locks (made p) = 0
locks (deleting old) = 0

-- What a thread has seen and still holds.
abbrev pub Sees : Ptr → Thread → Type 0
Sees s (counted n) = above_one n ≡ true
Sees s (replacing p old) = old ≡ s
Sees s outside = Unit
Sees s grabbing = Unit
Sees s (holding p) = Unit
Sees s (reading p) = Unit
Sees s (freeing p) = Unit
Sees s (made p) = Unit
Sees s (swapping p) = Unit
Sees s (swapped old) = Unit
Sees s (lowered old n) = Unit
Sees s (deleting old) = Unit

-- A count in memory, and whether it is one that nobody refers to any more.
abbrev pub owed : Option ℕ → ℕ
owed none = 0
owed (some c) = c

abbrev pub spare : Option ℕ → ℕ
spare none = 0
spare (some zero) = 1
spare (some (suc c)) = 0

pub record Inv (n : ℕ) (s : System) : Type 0 where
  pub owned :
      (q : Ptr)
      → sum n (λ i. claim s.shared.slot q (s.threads i)) + bit (q == s.shared.slot)
        ≡ owed (s.shared.refs q)
  pub freed : (q : Ptr) → sum n (λ i. frees q (s.threads i)) ≡ spare (s.shared.refs q)
  pub locked : sum n (λ i. locks (s.threads i)) ≡ bit s.shared.lock
  pub seen : (i : ℕ) → i < n → Sees s.shared.slot (s.threads i)
