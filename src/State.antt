-- ===== src/State.antt =====
-- The state that the methods of `table` work on, and runs of them by one thread: lighttable.h,
-- and the strings of lstruct.h, which values point to.
use lighttable.Prelude.{ℕ, Bool, true, false, Option, ◌==◌, if◌then◌else◌}
use lighttable.Struct.{StringSlot}
use lighttable.Lmap.{Lmap}

-- An address; what `malloc` returns is an argument of the methods that call it.
abbrev pub Ptr : Type 0
Ptr = ℕ

-- `struct lstring`.
pub record Lstring : Type 0 where
  pub lock : ℕ
  pub slot : Ptr

-- The data members of `class table`.
pub record Table : Type 0 where
  pub ref : ℕ
  pub lock : ℕ
  pub map_lock : ℕ
  pub map : Lmap

-- A table with the strings in memory.
pub record State : Type 0 where
  pub table : Table
  pub lstrings : Ptr → Option Lstring
  pub slots : Ptr → Option StringSlot

-- `assertion_failed`: an `assert` stops the program. `spins`: a lock that is taken is waited for
-- without end, since no other thread runs. `wild_access`: memory that is not there is used.
-- `stack_overflow`: a recursion goes deeper than the stack has room for. `out_of_rounds`: a loop
-- that the source does not bound has not ended in the rounds that it was given.
pub data Fault : Type 0 where
  assertion_failed spins wild_access stack_overflow out_of_rounds : Fault

-- What a run on a state `S` comes to.
pub data RunOn (S A : Type 0) : Type 0 where
  ok : A → S → RunOn S A
  fault : Fault → RunOn S A

abbrev pub Run : Type 0 → Type 0
Run A = RunOn State A

abbrev pub Method : Type 0 → Type 0
Method A = State → Run A

abbrev pub pure : {S A : Type 0} → A → S → RunOn S A
pure = ok

module _ {S A B : Type 0} where
  abbrev pub and_then : RunOn S A → (A → S → RunOn S B) → RunOn S B
  and_then (ok a s) f = f a s
  and_then (fault e) f = fault e

  infixl 5 ◌>>=◌ ◌>>◌
  abbrev pub ◌>>=◌ : (S → RunOn S A) → (A → S → RunOn S B) → S → RunOn S B
  m >>= f = λ s. and_then (m s) f

  abbrev pub ◌>>◌ : (S → RunOn S A) → (S → RunOn S B) → S → RunOn S B
  m >> n = m >>= λ _. n

abbrev pub assert : {S : Type 0} → Bool → S → RunOn S (Unit {0})
assert true s = ok tt s
assert false s = fault assertion_failed

abbrev pub write {ℓ} : {A : Type ℓ} → (Ptr → Option A) → Ptr → Option A → Ptr → Option A
write h p c a = if a == p then c else h a
