-- ===== src/Threads/Stale.antt =====
-- What _release_map of lighttable.cpp does where a writer replaces the map twice: it has loaded
-- `this->map`, which is deleted before it writes the count to it.
use lighttable.Prelude.{ℕ, ◌<◌, ◌≡◌, ◌≢◌, refl, sym, ap, true, false, none, some, ◌∙◌, arith}
use mathlib.Core.Path.{subst}
use lighttable.State.{Ptr}
use lighttable.Threads.{
  Shared, Reader, outside, locked, counted, holding, searching, releasing, released, storing,
  deleting, checking, idle, Read, Write, System, with_ref,
}
use lighttable.Threads.Runs.{
  Steps, Steps-trans, ReadRun, WriteRun, Resting, grab-ReadRun, run-Alone, run-writer,
}
use lighttable.Threads.Leak.{AtRest, replace-WriteRun}

-- _insert_table that replaces the map, whose count is 1, by one at `q`: the old map is deleted.
replace_last-WriteRun :
    (m : Shared) (p q : Ptr)
    → p ≢ q
    → Resting m p 1
    → m.lock ≡ false
    → m.refs q ≡ none
    → (m' : Shared) × WriteRun m idle m' idle × (m'.map ≡ q) × (m'.refs p ≡ none)
replace_last-WriteRun m p q ne rest free fresh =
    let at : m.refs m.map ≡ some 1 = rw rest.map rest.count in
    let m₁ : Shared = record m { lock = true } in
    let m₂ = with_ref m₁ q (some 1) in
    let m₃ : Shared = record m₂ { map = q; map_lock = true } in
    let there : m₃.refs m.map ≡ some 1 = ground (arith, rest.map) in
    let m₄ : Shared = record m₃ { map_lock = false } in
    let m' : Shared = record (with_ref m₄ m.map none) { lock = false } in
    let run : WriteRun m idle m' idle = WriteRun.first (Write.begin free) (
      WriteRun.first (Write.expand at fresh) (
        WriteRun.first (Write.take rest.free) (
          WriteRun.first Write.swap (
            WriteRun.first (Write.uncount there) (
              WriteRun.first Write.unlock (
                WriteRun.first (Write.delete refl there)
                  (WriteRun.first Write.end WriteRun.done))))))) in
    (m', run, refl, ground (arith, rest.map))

-- The reader is to write a count to a map that has been deleted.
abbrev Halted : Shared → Reader → Type 0
Halted m outside = ⊥
Halted m locked = ⊥
Halted m (counted n) = ⊥
Halted m (holding p) = ⊥
Halted m (searching p) = ⊥
Halted m (releasing p) = ⊥
Halted m (released p n) = ⊥
Halted m (storing p q n) = m.refs q ≡ none
Halted m (deleting p) = ⊥
Halted m (checking p) = ⊥

Read-Halted : {m m' : Shared} {r r' : Reader} → Read m r m' r' → Halted m r → ⊥
Read-Halted (Read.take free) h = h
Read-Halted (Read.count e) h = h
Read-Halted (Read.store above e) h = h
Read-Halted Read.unlock h = h
Read-Halted (Read.search e) h = h
Read-Halted (Read.uncount e) h = h
Read-Halted Read.load h = h
Read-Halted (Read.put_back e) h = cc (e, h)
Read-Halted (Read.delete e) h = h
Read-Halted Read.finish h = h

stale-stuck :
    {m m' : Shared} {r r' : Reader} {p q : Ptr} {n : ℕ}
    → r ≡ storing p q n
    → m.refs q ≡ none
    → Read m r m' r'
    → ⊥
stale-stuck {m} e gone st = Read-Halted st (subst (λ r. Halted m r) (sym e) gone)

-- _release_map of a map with the count 2, where the table has another, up to the write.
load-ReadRun :
    (m : Shared) (p q : Ptr)
    → m.map ≡ q
    → m.refs p ≡ some 2
    → ReadRun m (releasing p) m (storing p q 1)
load-ReadRun m p q is count =
    subst (λ x. ReadRun m (releasing p) m (storing p x 1)) is
      (ReadRun.first (Read.uncount count) (ReadRun.first Read.load ReadRun.done))

-- From any state in which all threads are at rest and the count of the map is 1, with two unused
-- addresses for new maps: a reader and a writer that replaces the map twice can come, by steps of
-- theirs alone, to a state in which the table has the second new map and the reader, in
-- _release_map of the old map, is about to write the count 1 to the first new map, which is
-- deleted, so that the reader has no step.
pub release-stale :
    {n : ℕ} (s : System) (i j : ℕ) (q r : Ptr)
    → i < n
    → AtRest s
    → s.shared.refs s.shared.map ≡ some 1
    → s.shared.refs q ≡ none
    → s.shared.refs r ≡ none
    → q ≢ r
    → (t : System) × Steps n s t
      × (t.shared.map ≡ r)
      × (t.readers i ≡ storing s.shared.map q 1)
      × (t.shared.refs q ≡ none)
      × ((m : Shared) (x : Reader) → Read t.shared (t.readers i) m x → ⊥)
release-stale {n} s i j q r lt calm one fresh_q fresh_r apart =
    let p = s.shared.map in
    let ne : p ≢ q = λ z. cc (one, fresh_q, z) in
    let ne' : r ≢ p = λ z. cc (one, fresh_r, z) in
    let (m₁, grab, rest₁, others₁) =
      grab-ReadRun s.shared p 1 refl (record { map = refl; free = calm.free; count = one }) in
    let (s₁, steps₁, shared₁, at₁, readers₁, writers₁) =
      run-Alone n s i lt refl (calm.readers i) grab in
    let (m₂, replace, rest₂, kept, unlocked, same₂) =
      replace-WriteRun m₁ p q 2 refl ne rest₁ (others₁.lock ∙ calm.unlocked)
        (others₁.refs q (λ z. ne (sym z)) ∙ fresh_q) in
    let (s₂, steps₂, shared₂, idle₂, writers₂, readers₂) =
      run-writer n s₁ j shared₁ (ap (λ f. f j) writers₁ ∙ calm.writers j) replace in
    let loaded = load-ReadRun m₂ p q rest₂.map kept in
    let (s₃, steps₃, shared₃, at₃, readers₃, writers₃) =
      run-Alone n s₂ i lt shared₂ (ap (λ f. f i) readers₂ ∙ at₁) loaded in
    let fresh : m₂.refs r ≡ none = same₂ r (λ z. apart (sym z)) ∙ (others₁.refs r ne' ∙ fresh_r) in
    let (m₄, last, map₄, gone) = replace_last-WriteRun m₂ q r apart rest₂ unlocked fresh in
    let (s₄, steps₄, shared₄, idle₄, writers₄, readers₄) =
      run-writer n s₃ j shared₃ (ap (λ f. f j) writers₃ ∙ idle₂) last in
    let at₄ : s₄.readers i ≡ storing p q 1 = ap (λ f. f i) readers₄ ∙ at₃ in
    let deleted : s₄.shared.refs q ≡ none = ap (λ m. m.refs q) shared₄ ∙ gone in
    (
      s₄,
      Steps-trans steps₁ (Steps-trans steps₂ (Steps-trans steps₃ steps₄)),
      ap (λ m. m.map) shared₄ ∙ map₄,
      at₄,
      deleted,
      λ m x st. stale-stuck at₄ deleted st,
    )
