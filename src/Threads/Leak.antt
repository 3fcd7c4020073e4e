-- ===== src/Threads/Leak.antt =====
-- A map of lighttable.cpp that is replaced while a reader searches it is never freed: the reader
-- writes the lowered count to the map that replaced it.
use lighttable.Prelude.{
  ℕ, ◌<◌, ◌≡◌, ◌≢◌, refl, sym, ap, Bool, true, false, none, some, ◌∙◌, ◌==◌, if◌then◌else◌, arith,
  Bool-cases, inl, inr,
}
use lighttable.Prelude.Word.{lower}
use lighttable.State.{Ptr}
use lighttable.Threads.{
  Shared, Reader, outside, locked, counted, holding, searching, releasing, released, storing,
  deleting, checking, Writer, idle, inserting, expanded, swapping, swapped, counted_old, dropping,
  unlocking, Read, Write, System, Step, reads, writes, with_ref,
}
use lighttable.Threads.Runs.{
  Steps, here, next, Steps-trans, ReadRun, WriteRun, Resting, grab-ReadRun, put-ReadRun, run-Alone,
  run-writer,
}

-- The thread does not work with the map.
abbrev Avoids : Ptr → Reader → Type 0
Avoids p outside = Unit {0}
Avoids p locked = Unit {0}
Avoids p (counted n) = Unit {0}
Avoids p (holding q) = q ≢ p
Avoids p (searching q) = q ≢ p
Avoids p (releasing q) = q ≢ p
Avoids p (released q n) = q ≢ p
Avoids p (storing x q n) = (x ≢ p) × (q ≢ p)
Avoids p (deleting q) = q ≢ p
Avoids p (checking q) = Unit {0}

abbrev Spares : Ptr → Writer → Type 0
Spares p idle = Unit {0}
Spares p inserting = Unit {0}
Spares p (expanded q) = q ≢ p
Spares p (swapping q) = q ≢ p
Spares p (swapped q) = q ≢ p
Spares p (counted_old q n) = q ≢ p
Spares p (dropping q n) = q ≢ p
Spares p unlocking = Unit {0}

-- The map is not the table's, and keeps its count.
record Lost (m : Shared) (p : Ptr) (c : ℕ) : Type 0 where
  other : m.map ≢ p
  count : m.refs p ≡ some c

module _ (p : Ptr) (c : ℕ) where
  put_back-Avoids : (q : Ptr) (b : Bool) → q ≢ p → Avoids p (if b then deleting q else checking q)
  put_back-Avoids q true ne = ne
  put_back-Avoids q false ne = tt

  Read-Lost :
      {m m' : Shared} {r r' : Reader}
      → Read m r m' r'
      → Lost m p c
      → Avoids p r
      → Lost m' p c × Avoids p r'
  Read-Lost (Read.take free) lost av = (record { other = lost.other; count = lost.count }, tt)
  Read-Lost (Read.count e) lost av = (lost, tt)
  Read-Lost (Read.store above e) lost av =
      (record { other = lost.other; count = ground (arith, lost.other, lost.count) }, lost.other)
  Read-Lost Read.unlock lost av = (record { other = lost.other; count = lost.count }, av)
  Read-Lost (Read.search e) lost av = (lost, av)
  Read-Lost (Read.uncount e) lost av = (lost, av)
  Read-Lost Read.load lost av = (lost, (av, lost.other))
  Read-Lost (Read.put_back {p = x} {q = q} {n} e) lost (av, ne) = (
    record { other = lost.other; count = ground (arith, ne, lost.count) },
    put_back-Avoids x (n == 0) av,
  )
  Read-Lost (Read.delete e) lost av =
      (record { other = lost.other; count = ground (arith, lost.count) }, tt)
  Read-Lost Read.finish lost av = (lost, tt)

  Write-Lost :
      {m m' : Shared} {w w' : Writer}
      → Write m w m' w'
      → Lost m p c
      → Spares p w
      → Lost m' p c × Spares p w'
  Write-Lost (Write.begin free) lost sp = (record { other = lost.other; count = lost.count }, tt)
  Write-Lost (Write.insert e) lost sp = (lost, tt)
  Write-Lost (Write.expand {p = q} e fresh) lost sp =
      let ne : q ≢ p = λ z. cc (z, fresh, lost.count) in
      (record { other = lost.other; count = ground (arith, lost.count) }, ne)
  Write-Lost (Write.take free) lost sp = (record { other = lost.other; count = lost.count }, sp)
  Write-Lost Write.swap lost sp = (record { other = sp; count = lost.count }, lost.other)
  Write-Lost (Write.uncount e) lost sp = (lost, sp)
  Write-Lost Write.unlock lost sp = (record { other = lost.other; count = lost.count }, sp)
  Write-Lost (Write.keep e) lost sp = (lost, tt)
  Write-Lost (Write.delete z e) lost sp =
      (record { other = lost.other; count = ground (arith, lost.count) }, tt)
  Write-Lost Write.end lost sp = (record { other = lost.other; count = lost.count }, tt)

  -- No thread works with the map, and so it stays.
  record Forgotten (s : System) : Type 0 where
    lost : Lost s.shared p c
    readers : (i : ℕ) → Avoids p (s.readers i)
    writers : (j : ℕ) → Spares p (s.writers j)

  Step-Forgotten : {n : ℕ} {s t : System} → Step n s t → Forgotten s → Forgotten t
  Step-Forgotten (reads {r = r} i lt st) fo =
      let (lost, av) = Read-Lost st fo.lost (fo.readers i) in
      record {
        lost = lost;
        readers =
            λ k. elim (Bool-cases (k == i)) [ inl is ↦ rw is av | inr not ↦ rw not (fo.readers k) ];
        writers = fo.writers;
      }
  Step-Forgotten (writes {w = w} j st) fo =
      let (lost, sp) = Write-Lost st fo.lost (fo.writers j) in
      record {
        lost = lost;
        readers = fo.readers;
        writers =
            λ k. elim (Bool-cases (k == j)) [ inl is ↦ rw is sp | inr not ↦ rw not (fo.writers k) ];
      }

  Steps-Forgotten : {n : ℕ} {s t : System} → Forgotten s → Steps n s t → Forgotten t
  Steps-Forgotten fo here = fo
  Steps-Forgotten fo (next steps st) = Step-Forgotten st (Steps-Forgotten fo steps)

-- _insert_table that replaces the map, whose count is above 1, by one at `q`.
pub replace-WriteRun :
    (m : Shared) (p q : Ptr) (c : ℕ)
    → (lower c == 0) ≡ false
    → p ≢ q
    → Resting m p c
    → m.lock ≡ false
    → m.refs q ≡ none
    → (m' : Shared) × WriteRun m idle m' idle
      × Resting m' q 1
      × (m'.refs p ≡ some c)
      × (m'.lock ≡ false)
      × ((x : Ptr) → x ≢ q → m'.refs x ≡ m.refs x)
replace-WriteRun m p q c more ne rest free fresh =
    let at : m.refs m.map ≡ some c = rw rest.map rest.count in
    let m₁ : Shared = record m { lock = true } in
    let m₂ = with_ref m₁ q (some 1) in
    let m₃ : Shared = record m₂ { map = q; map_lock = true } in
    let there : m₃.refs m.map ≡ some c = ground (arith, rest.map) in
    let m' : Shared = record m₃ { map_lock = false; lock = false } in
    let run : WriteRun m idle m' idle = WriteRun.first (Write.begin free) (
      WriteRun.first (Write.expand at fresh) (
        WriteRun.first (Write.take rest.free) (
          WriteRun.first Write.swap (
            WriteRun.first (Write.uncount there) (
              WriteRun.first Write.unlock
                (WriteRun.first (Write.keep more) (WriteRun.first Write.end WriteRun.done))))))) in
    (
      m',
      run,
      record { map = refl; free = refl; count = ground arith },
      ground arith,
      refl,
      λ x other. ground arith,
    )

-- All threads are at rest: none works, and no lock is taken.
pub record AtRest (s : System) : Type 0 where
  pub readers : (i : ℕ) → s.readers i ≡ outside
  pub writers : (j : ℕ) → s.writers j ≡ idle
  pub free : s.shared.map_lock ≡ false
  pub unlocked : s.shared.lock ≡ false

-- After a run of one reader, of one writer, and of the reader again.
module _ (s s₁ s₂ s₃ : System) where
  all-outside :
      (i : ℕ)
      → AtRest s
      → ((k : ℕ) → k ≢ i → s₁.readers k ≡ s.readers k)
      → s₂.readers ≡ s₁.readers
      → ((k : ℕ) → k ≢ i → s₃.readers k ≡ s₂.readers k)
      → s₃.readers i ≡ outside
      → (k : ℕ) → s₃.readers k ≡ outside
  all-outside i calm first same last done k = elim (Bool-cases (k == i)) [
    | inl is ↦ let e : k ≡ i = ground arith in rw e done
    | inr not ↦
        let ne : k ≢ i = ground arith in
        last k ne ∙ (ap (λ f. f k) same ∙ (first k ne ∙ calm.readers k))
  ]

  all-idle :
      (j : ℕ)
      → AtRest s
      → s₁.writers ≡ s.writers
      → ((k : ℕ) → k ≢ j → s₂.writers k ≡ s₁.writers k)
      → s₃.writers ≡ s₂.writers
      → s₂.writers j ≡ idle
      → (k : ℕ) → s₃.writers k ≡ idle
  all-idle j calm first others last done k = elim (Bool-cases (k == j)) [
    | inl is ↦ let e : k ≡ j = ground arith in ap (λ f. f k) last ∙ rw e done
    | inr not ↦
        let ne : k ≢ j = ground arith in
        ap (λ f. f k) last ∙ (others k ne ∙ (ap (λ f. f k) first ∙ calm.writers k))
  ]

-- From any state in which all threads are at rest and the count of the map is 1, with an unused
-- address for a new map: a reader and a writer can come, by steps of theirs alone, to a state in
-- which all threads are at rest again, the table has the new map with the count 1, and the old map
-- is still there, with the count 2; and whatever readers and writers do from then on, it is never
-- deleted and its count stays.
pub replaced-leaks :
    {n : ℕ} (s : System) (i j : ℕ) (q : Ptr)
    → i < n
    → AtRest s
    → s.shared.refs s.shared.map ≡ some 1
    → s.shared.refs q ≡ none
    → (t : System) × Steps n s t
      × AtRest t
      × (t.shared.map ≡ q)
      × (t.shared.refs q ≡ some 1)
      × ((u : System) → Steps n t u → u.shared.refs s.shared.map ≡ some 2)
replaced-leaks {n} s i j q lt calm one fresh =
    let p = s.shared.map in
    let ne : p ≢ q = λ z. cc (one, fresh, z) in
    let (m₁, grab, rest₁, others₁) =
      grab-ReadRun s.shared p 1 refl (record { map = refl; free = calm.free; count = one }) in
    let (s₁, steps₁, shared₁, at₁, readers₁, writers₁) =
      run-Alone n s i lt refl (calm.readers i) grab in
    let (m₂, replace, rest₂, kept, unlocked, _) =
      replace-WriteRun m₁ p q 2 refl ne rest₁ (others₁.lock ∙ calm.unlocked)
        (others₁.refs q (λ z. ne (sym z)) ∙ fresh) in
    let (s₂, steps₂, shared₂, idle₂, writers₂, readers₂) =
      run-writer n s₁ j shared₁ (ap (λ f. f j) writers₁ ∙ calm.writers j) replace in
    let (m₃, put, rest₃, others₃) = put-ReadRun m₂ p q 1 1 refl rest₂ in
    let (s₃, steps₃, shared₃, done₃, readers₃, writers₃) =
      run-Alone n s₂ i lt shared₂ (ap (λ f. f i) readers₂ ∙ at₁)
        (ReadRun.first (Read.uncount kept) put) in
    let readers = λ (k : ℕ). all-outside s s₁ s₂ s₃ i calm readers₁ readers₂ readers₃ done₃ k in
    let writers = λ (k : ℕ). all-idle s s₁ s₂ s₃ j calm writers₁ writers₂ writers₃ idle₂ k in
    let forgotten : Forgotten p 2 s₃ = record {
      lost = record {
        other = λ z. ne (sym z ∙ (ap (λ m. m.map) shared₃ ∙ rest₃.map));
        count = ap (λ m. m.refs p) shared₃ ∙ (others₃.refs p ne ∙ kept);
      };
      readers = λ k. rw (readers k) tt;
      writers = λ k. rw (writers k) tt;
    } in
    (
      s₃,
      Steps-trans steps₁ (Steps-trans steps₂ steps₃),
      record {
        readers = readers;
        writers = writers;
        free = ap (λ m. m.map_lock) shared₃ ∙ rest₃.free;
        unlocked = ap (λ m. m.lock) shared₃ ∙ (others₃.lock ∙ unlocked);
      },
      ap (λ m. m.map) shared₃ ∙ rest₃.map,
      ap (λ m. m.refs q) shared₃ ∙ rest₃.count,
      λ u steps. (Steps-Forgotten p 2 forgotten steps).lost.count,
    )
