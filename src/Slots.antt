-- ===== src/Slots.antt =====
-- One string of a table under several threads: _grab_string, _release_string and _update_string of
-- lighttable.cpp as steps, one for each access to what the threads share. Each thread calls
-- value_string (or get_string, which makes the same accesses but for those of the callback) or
-- _update_string of the same lstring, as often as it likes and in any order.
pub mod Owed
pub mod Balance
pub mod Kept
pub mod Safety
use lighttable.Prelude.{
  ℕ, zero, suc, ◌+◌, ◌-◌, ◌^◌, ◌<◌, ◌≡◌, Bool, true, false, Option, none, some, ◌==◌, if◌then◌else◌,
}
use lighttable.Prelude.Word.{raise, lower}
use lighttable.Prelude.Family.{update}
use lighttable.State.{Ptr, write}
use lighttable.Table.{above_one}

-- `slot` and `lock` of the lstring, and `ref` of each slot in memory, none where there is no slot.
pub record Shared : Type 0 where
  pub slot : Ptr
  pub lock : Bool
  pub refs : Ptr → Option ℕ

-- Where a thread is. In _grab_string: with the lock; with the count raised, before the assertion;
-- with `ret`. In the callback: with the slot. In _release_string: before `free`. In
-- _update_string: with the new slot; with the lock; with `old` read; with `slot` written; with the
-- count of `old` lowered; before `delete old`.
pub data Thread : Type 0 where
  outside : Thread
  grabbing : Thread
  counted : ℕ → Thread
  holding : Ptr → Thread
  reading : Ptr → Thread
  freeing : Ptr → Thread
  made : Ptr → Thread
  swapping : Ptr → Thread
  replacing : Ptr → Ptr → Thread
  swapped : Ptr → Thread
  lowered : Ptr → ℕ → Thread
  deleting : Ptr → Thread

abbrev pub with_ref : Shared → Ptr → Option ℕ → Shared
with_ref m p c = record m { refs = write m.refs p c }

-- The steps of value_string and get_string. One that uses a slot that is not in memory, or that
-- fails the assertion, is no step.
pub data Grabbing (m : Shared) : Thread → Shared → Thread → Type 0 where
  take : m.lock ≡ false → Grabbing m outside (record m { lock = true }) grabbing
  count :
      {r : ℕ}
      → m.refs m.slot ≡ some r
      → Grabbing m grabbing (with_ref m m.slot (some (raise r))) (counted (raise r))
  pick : {n : ℕ} → above_one n ≡ true → Grabbing m (counted n) m (holding m.slot)
  unlock : {p : Ptr} → Grabbing m (holding p) (record m { lock = false }) (reading p)
  read : {p : Ptr} {r : ℕ} → m.refs p ≡ some r → Grabbing m (reading p) m (reading p)
  release :
      {p : Ptr} {r : ℕ}
      → m.refs p ≡ some r
      → Grabbing m
          (reading p)
          (with_ref m p (some (lower r)))
          (if lower r == 0 then freeing p else outside)
  free : {p : Ptr} {r : ℕ} → m.refs p ≡ some r → Grabbing m (freeing p) (with_ref m p none) outside

-- The steps of _update_string. The new slot stands where none was.
pub data Updating (m : Shared) : Thread → Shared → Thread → Type 0 where
  make : {p : Ptr} → m.refs p ≡ none → Updating m outside (with_ref m p (some 1)) (made p)
  take_to_swap :
      {p : Ptr} → m.lock ≡ false → Updating m (made p) (record m { lock = true }) (swapping p)
  look : {p : Ptr} → Updating m (swapping p) m (replacing p m.slot)
  swap : {p old : Ptr} → Updating m (replacing p old) (record m { slot = p }) (swapped old)
  drop :
      {old : Ptr} {r : ℕ}
      → m.refs old ≡ some r
      → Updating m (swapped old) (with_ref m old (some (lower r))) (lowered old (lower r))
  unlock_swapped :
      {old : Ptr} {n : ℕ}
      → Updating m
          (lowered old n)
          (record m { lock = false })
          (if n == 0 then deleting old else outside)
  delete :
      {old : Ptr} {r : ℕ}
      → m.refs old ≡ some r
      → Updating m (deleting old) (with_ref m old none) outside

pub data Act (m : Shared) (t : Thread) (m' : Shared) (t' : Thread) : Type 0 where
  grabs : Grabbing m t m' t' → Act m t m' t'
  updates : Updating m t m' t' → Act m t m' t'

pub record System : Type 0 where
  pub shared : Shared
  pub threads : ℕ → Thread

-- A step of one of `n` threads.
pub data Step (n : ℕ) (s : System) : System → Type 0 where
  acts :
      {m : Shared} {t : Thread} (i : ℕ)
      → i < n
      → Act s.shared (s.threads i) m t
      → Step n s (record { shared = m; threads = update s.threads i t })

-- A string with one slot, to which it alone refers, and no thread at work.
abbrev pub initial : Ptr → System
initial p = record {
  shared = record { slot = p; lock = false; refs = λ q. if q == p then some 1 else none };
  threads = λ i. outside;
}

pub data Reach (n : ℕ) (p : Ptr) : System → Type 0 where
  start : Reach n p (initial p)
  later : {s t : System} → Reach n p s → Step n s t → Reach n p t
