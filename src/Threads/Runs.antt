-- ===== src/Threads/Runs.antt =====
-- Steps in a row of one reader or writer of lighttable.cpp, by itself and among other threads.
use lighttable.Prelude.{
  ℕ, ◌<◌, ◌≡◌, ◌≢◌, refl, true, false, none, some, arith, ◌∙◌, ◌==◌, if◌then◌else◌,
}
use mathlib.Core.Path.{subst}
use lighttable.Prelude.Word.{raise}
use lighttable.Prelude.Family.{update, update_same, update_other}
use lighttable.State.{Ptr}
use lighttable.Table.{above_one}
use lighttable.Threads.{
  Shared, Reader, outside, releasing, released, storing, deleting, checking, Read, System, Step,
  reads, Writer, Write, writes, with_ref,
}

-- Steps of one reader in a row.
pub data ReadRun : Shared → Reader → Shared → Reader → Type 0 where
  done : {m : Shared} {r : Reader} → ReadRun m r m r
  first :
      {m m' m'' : Shared} {r r' r'' : Reader}
      → Read m r m' r'
      → ReadRun m' r' m'' r''
      → ReadRun m r m'' r''

pub ReadRun-snoc :
    {m m' m'' : Shared} {r r' r'' : Reader}
    → ReadRun m r m' r'
    → Read m' r' m'' r''
    → ReadRun m r m'' r''
ReadRun-snoc done st = first st done
ReadRun-snoc (first st' run) st = first st' (ReadRun-snoc run st)

pub data Steps (n : ℕ) (s : System) : System → Type 0 where
  here : Steps n s s
  next : {t u : System} → Steps n s t → Step n t u → Steps n s u

pub Steps-trans : {n : ℕ} {s t u : System} → Steps n s t → Steps n t u → Steps n s u
Steps-trans p here = p
Steps-trans p (next q st) = next (Steps-trans p q) st

-- The table is at rest but for the readers: nobody has `map_lock`, and its map has the count c.
pub record Resting (m : Shared) (p : Ptr) (c : ℕ) : Type 0 where
  pub map : m.map ≡ p
  pub free : m.map_lock ≡ false
  pub count : m.refs p ≡ some c

-- What the steps leave alone: `lock`, and the counts of the other maps.
pub record Others (m : Shared) (p : Ptr) (m' : Shared) : Type 0 where
  pub lock : m'.lock ≡ m.lock
  pub refs : (q : Ptr) → q ≢ p → m'.refs q ≡ m.refs q

-- _grab_map and _search.
pub grab-ReadRun :
    (m : Shared) (p : Ptr) (c : ℕ)
    → above_one (raise c) ≡ true
    → Resting m p c
    → (m' : Shared) × ReadRun m outside m' (releasing p) × Resting m' p (raise c) × Others m p m'
grab-ReadRun m p c above rest =
    let at : m.refs m.map ≡ some c = rw rest.map rest.count in
    let m' : Shared = record (with_ref m m.map (some (raise c))) { map_lock = false } in
    let found : m'.refs m.map ≡ some (raise c) = ground arith in
    let run : ReadRun m outside m' (releasing m.map) = first (Read.take rest.free) (
      first (Read.count at)
        (first (Read.store above at) (first Read.unlock (first (Read.search found) done)))) in
    (
      m',
      rw (← rest.map) run,
      record { map = rest.map; free = refl; count = rw (← rest.map) found },
      record { lock = refl; refs = λ q ne. ground (arith, rest.map) },
    )

-- _release_map of any map from the assignment of the count on, where that is not 0: it is written to the
-- map of the table.
pub put-ReadRun :
    (m : Shared) (x p : Ptr) (c n : ℕ)
    → (n == 0) ≡ false
    → Resting m p c
    → (m' : Shared) × ReadRun m (released x n) m' outside × Resting m' p n × Others m p m'
put-ReadRun m x p c n more rest =
    let at : m.refs m.map ≡ some c = rw rest.map rest.count in
    let m' : Shared = with_ref m m.map (some n) in
    let back : Read m (storing x m.map n) m' (checking x) =
      subst (λ b. Read m (storing x m.map n) m' (if b then deleting x else checking x)) more
        (Read.put_back at) in
    (
      m',
      first Read.load (first back (first Read.finish done)),
      record { map = rest.map; free = rest.free; count = rw (← rest.map) (ground arith) },
      record { lock = refl; refs = λ q ne. ground (arith, rest.map) },
    )

-- _release_map of a map with the count 1.
pub last-ReadRun :
    (m : Shared) (p : Ptr)
    → Resting m p 1
    → (m' : Shared) × ReadRun m (releasing p) m' outside × (m'.map ≡ p) × (m'.refs p ≡ none)
last-ReadRun m p rest =
    let at : m.refs m.map ≡ some 1 = rw rest.map rest.count in
    let m' : Shared = with_ref m m.map (some 0) in
    let left : m'.refs p ≡ some 0 = ground (arith, rest.map) in
    (
      with_ref m' p none,
      first (Read.uncount rest.count) (
          first Read.load
            (first (Read.put_back at) (first (Read.delete left) (first Read.finish done)))),
      rest.map,
      ground arith,
    )

-- The steps of one reader among the others.
abbrev pub Alone : ℕ → System → ℕ → Shared → Reader → Type 0
Alone n s i m r =
    (t : System) × Steps n s t
    × (t.shared ≡ m)
    × (t.readers i ≡ r)
    × ((j : ℕ) → j ≢ i → t.readers j ≡ s.readers j)
    × (t.writers ≡ s.writers)

pub run-Alone :
    {m m' : Shared} {r r' : Reader} (n : ℕ) (s : System) (i : ℕ)
    → i < n
    → s.shared ≡ m
    → s.readers i ≡ r
    → ReadRun m r m' r'
    → Alone n s i m' r'
run-Alone n s i lt e e' done = (s, here, e, e', (λ j ne. refl), refl)
run-Alone n s i lt e e' (first {m' = m₁} {r' = r₁} st run) =
    let s₁ : System = record s { shared = m₁; readers = update s.readers i r₁ } in
    let step : Step n s s₁ = reads i lt (rw (e, e') st) in
    let (t, later_steps, shared, reader, others, writer) =
      run-Alone n s₁ i lt refl (update_same s.readers i r₁) run in
    (
      t,
      Steps-trans (next here step) later_steps,
      shared,
      reader,
      (λ j ne. others j ne ∙ update_other s.readers i r₁ j ne),
      writer,
    )

-- Steps of one writer in a row, and among the other threads.
pub data WriteRun : Shared → Writer → Shared → Writer → Type 0 where
  done : {m : Shared} {w : Writer} → WriteRun m w m w
  first :
      {m m' m'' : Shared} {w w' w'' : Writer}
      → Write m w m' w'
      → WriteRun m' w' m'' w''
      → WriteRun m w m'' w''

pub run-writer :
    {m m' : Shared} {w w' : Writer} (n : ℕ) (s : System) (j : ℕ)
    → s.shared ≡ m
    → s.writers j ≡ w
    → WriteRun m w m' w'
    → (t : System) × Steps n s t
      × (t.shared ≡ m')
      × (t.writers j ≡ w')
      × ((i : ℕ) → i ≢ j → t.writers i ≡ s.writers i)
      × (t.readers ≡ s.readers)
run-writer n s j e e' done = (s, here, e, e', (λ i ne. refl), refl)
run-writer n s j e e' (first {m' = m₁} {w' = w₁} st run) =
    let s₁ : System = record s { shared = m₁; writers = update s.writers j w₁ } in
    let step : Step n s s₁ = writes j (rw (e, e') st) in
    let (t, later_steps, shared, writer, others, readers) =
      run-writer n s₁ j refl (update_same s.writers j w₁) run in
    (
      t,
      Steps-trans (next here step) later_steps,
      shared,
      writer,
      (λ i ne. others i ne ∙ update_other s.writers j w₁ i ne),
      readers,
    )
