-- ===== src/Threads.antt =====
-- The references to the map of a table under several threads: _grab_map, _release_map,
-- _search_map, _update_map and _insert_table of lighttable.cpp as steps, one for each access to
-- what the threads share, but that what is done with `map` under `map_lock`, under which alone it is
-- written, is one step. Any number of readers search, and any number of writers insert. The entries
-- of the maps are left out.
pub mod Runs
pub mod Races
pub mod Leak
pub mod Stale
use lighttable.Prelude.{
  ℕ, ◌+◌, ◌-◌, ◌<◌, ◌≡◌, ◌≢◌, Bool, true, false, Option, none, some, ◌==◌, if◌then◌else◌,
}
use lighttable.Prelude.Word.{raise, lower}
use lighttable.Prelude.Family.{update}
use lighttable.State.{Ptr, write}
use lighttable.Table.{above_one}

-- `map`, `map_lock`, `lock`, and the `ref` of each map, none where it has been deleted.
pub record Shared : Type 0 where
  pub map : Ptr
  pub map_lock : Bool
  pub lock : Bool
  pub refs : Ptr → Option ℕ

-- A thread in `_search_map`: before it takes `map_lock`; with the lock; with the count it has
-- computed; with the count stored; in `_search`; before `_release_map` reads the count; with the
-- count it has computed; with `this->map` loaded, to which the count is written; before `delete m`;
-- before the test of the loop.
pub data Reader : Type 0 where
  outside : Reader
  locked : Reader
  counted : ℕ → Reader
  holding : Ptr → Reader
  searching : Ptr → Reader
  releasing : Ptr → Reader
  released : Ptr → ℕ → Reader
  storing : Ptr → Ptr → ℕ → Reader
  deleting : Ptr → Reader
  checking : Ptr → Reader

-- A thread in `_insert_table`: before it takes `lock`; in `_insert_value`; with a new map; with
-- `map_lock`; with `this->map` replaced; with the count of the old map; without `map_lock`;
-- before `_table_unlock`.
pub data Writer : Type 0 where
  idle : Writer
  inserting : Writer
  expanded : Ptr → Writer
  swapping : Ptr → Writer
  swapped : Ptr → Writer
  counted_old : Ptr → ℕ → Writer
  dropping : Ptr → ℕ → Writer
  unlocking : Writer

abbrev pub with_ref : Shared → Ptr → Option ℕ → Shared
with_ref m p c = record m { refs = write m.refs p c }

-- The steps of a reader. One that uses a map that has been deleted, or that fails the assertion, is
-- no step. From `checking` a reader goes round the loop or returns, and is `outside` in both cases.
pub data Read (m : Shared) : Reader → Shared → Reader → Type 0 where
  take : m.map_lock ≡ false → Read m outside (record m { map_lock = true }) locked
  count : {r : ℕ} → m.refs m.map ≡ some r → Read m locked m (counted (raise r))
  store :
      {n r : ℕ}
      → above_one n ≡ true
      → m.refs m.map ≡ some r
      → Read m (counted n) (with_ref m m.map (some n)) (holding m.map)
  unlock : {p : Ptr} → Read m (holding p) (record m { map_lock = false }) (searching p)
  search : {p : Ptr} {r : ℕ} → m.refs p ≡ some r → Read m (searching p) m (releasing p)
  uncount : {p : Ptr} {r : ℕ} → m.refs p ≡ some r → Read m (releasing p) m (released p (lower r))
  load : {p : Ptr} {n : ℕ} → Read m (released p n) m (storing p m.map n)
  put_back :
      {p q : Ptr} {n r : ℕ}
      → m.refs q ≡ some r
      → Read m (storing p q n) (with_ref m q (some n)) (if n == 0 then deleting p else checking p)
  delete :
      {p : Ptr} {r : ℕ} → m.refs p ≡ some r → Read m (deleting p) (with_ref m p none) (checking p)
  finish : {p : Ptr} → Read m (checking p) m outside

-- The steps of a writer. A new map stands where none was.
pub data Write (m : Shared) : Writer → Shared → Writer → Type 0 where
  begin : m.lock ≡ false → Write m idle (record m { lock = true }) inserting
  insert : {c : ℕ} → m.refs m.map ≡ some c → Write m inserting m unlocking
  expand :
      {p : Ptr} {c : ℕ}
      → m.refs m.map ≡ some c
      → m.refs p ≡ none
      → Write m inserting (with_ref m p (some 1)) (expanded p)
  take :
      {p : Ptr}
      → m.map_lock ≡ false
      → Write m (expanded p) (record m { map_lock = true }) (swapping p)
  swap : {p : Ptr} → Write m (swapping p) (record m { map = p }) (swapped m.map)
  uncount : {p : Ptr} {c : ℕ} → m.refs p ≡ some c → Write m (swapped p) m (counted_old p (lower c))
  unlock :
      {p : Ptr} {n : ℕ} → Write m (counted_old p n) (record m { map_lock = false }) (dropping p n)
  keep : {p : Ptr} {n : ℕ} → (n == 0) ≡ false → Write m (dropping p n) m unlocking
  delete :
      {p : Ptr} {n c : ℕ}
      → (n == 0) ≡ true
      → m.refs p ≡ some c
      → Write m (dropping p n) (with_ref m p none) unlocking
  end : Write m unlocking (record m { lock = false }) idle

pub record System : Type 0 where
  pub shared : Shared
  pub readers : ℕ → Reader
  pub writers : ℕ → Writer

-- A step of one of `n` readers, or of a writer.
pub data Step (n : ℕ) (s : System) : System → Type 0 where
  reads :
      {m : Shared} {r : Reader} (i : ℕ)
      → i < n
      → Read s.shared (s.readers i) m r
      → Step n s (record s { shared = m; readers = update s.readers i r })
  writes :
      {m : Shared} {w : Writer} (j : ℕ)
      → Write s.shared (s.writers j) m w
      → Step n s (record s { shared = m; writers = update s.writers j w })

-- A table with one map, to which it alone refers, and no thread at work.
abbrev pub initial : Ptr → System
initial p = record {
  shared = record {
    map = p;
    map_lock = false;
    lock = false;
    refs = λ q. if q == p then some 1 else none;
  };
  readers = λ i. outside;
  writers = λ j. idle;
}
