-- ===== src/Tests/Parallel.antt =====
-- The theorems on several threads, at short runs.
use lighttable.Prelude.{
  ℕ, zero, suc, ◌<◌, ◌≡◌, ◌≢◌, refl, false, none, some, ◌==◌, if◌then◌else◌, arith,
}
use lighttable.State.{Ptr}
use lighttable.Slots
use lighttable.Slots.{Grabbing, Updating, Act}
use lighttable.Slots.Safety.{Reach-Sound, rest-one_slot, Sound}
use lighttable.Threads
use lighttable.Threads.{Read}
use lighttable.Threads.Runs.{Steps}
use lighttable.Threads.Races.{readers-delete}
use lighttable.Threads.Leak.{AtRest, replaced-leaks}
use lighttable.Threads.Stale.{release-stale}

-- Runs of two threads on a string whose slot is first at 7.
abbrev SlotRun : Type 0
SlotRun = (s : Slots.System) × Slots.Reach 2 7 s

abbrev then_act :
    (r : SlotRun) (i : ℕ)
    → i < 2
    → {m : Slots.Shared} {t : Slots.Thread} → Act r.0.shared (r.0.threads i) m t
    → SlotRun
then_act r i lt a = (_, Slots.later r.1 (Slots.acts i lt a))

abbrev first_thread : zero < 2
first_thread = omega arith

abbrev second_thread : 1 < 2
second_thread = omega arith

-- The thread 0 has the slot at 7 while the thread 1 puts the one at 9 in its place.
abbrev reading_old : SlotRun
reading_old =
    let r₀ : SlotRun = (_, Slots.start) in
    let r₁ = then_act r₀ 0 first_thread (Act.grabs (Grabbing.take refl)) in
    let r₂ = then_act r₁ 0 first_thread (Act.grabs (Grabbing.count refl)) in
    let r₃ = then_act r₂ 0 first_thread (Act.grabs (Grabbing.pick refl)) in
    let r₄ = then_act r₃ 0 first_thread (Act.grabs Grabbing.unlock) in
    let r₅ = then_act r₄ 1 second_thread (Act.updates (Updating.make {p = 9} refl)) in
    let r₆ = then_act r₅ 1 second_thread (Act.updates (Updating.take_to_swap refl)) in
    let r₇ = then_act r₆ 1 second_thread (Act.updates Updating.look) in
    let r₈ = then_act r₇ 1 second_thread (Act.updates Updating.swap) in
    then_act r₈ 1 second_thread (Act.updates (Updating.drop refl))

Reach-Sound_example : Sound 2 reading_old.0 (Slots.reading 7)
Reach-Sound_example = Reach-Sound (omega arith) reading_old.1 0 first_thread

-- The thread 0 gives back the slot at 7, and frees it.
abbrev both_done : SlotRun
both_done =
    let r₁ = then_act reading_old 1 second_thread (Act.updates Updating.unlock_swapped) in
    let r₂ = then_act r₁ 0 first_thread (Act.grabs (Grabbing.release refl)) in
    then_act r₂ 0 first_thread (Act.grabs (Grabbing.free refl))

both_outside : (i : ℕ) → i < 2 → both_done.0.threads i ≡ Slots.outside
both_outside zero lt = refl
both_outside (suc zero) lt = refl
both_outside (suc (suc i)) lt = absurd (omega arith)

rest-one_slot_example :
    (both_done.0.shared.lock ≡ false)
    × ((q : Ptr) → both_done.0.shared.refs q ≡ (if q == 9 then some 1 else none))
rest-one_slot_example = rest-one_slot (omega arith) both_done.1 both_outside

abbrev two_readers : Threads.System
two_readers = Threads.initial 1

readers-delete_example :
    (t : Threads.System) × Steps 2 two_readers t
    × (t.shared.map ≡ 1)
    × (t.shared.refs 1 ≡ none)
    × (t.readers 0 ≡ Threads.outside)
    × (t.readers 1 ≡ Threads.outside)
    × ((k : ℕ) → k ≢ 0 → k ≢ 1 → t.readers k ≡ Threads.outside)
    × (t.writers ≡ (λ k. Threads.idle))
readers-delete_example =
    readers-delete two_readers 0 1 first_thread second_thread (omega arith) refl refl refl refl

-- A table whose map is at 1, with a new map at 4.
initial-AtRest : AtRest (Threads.initial 1)
initial-AtRest = record { readers = λ i. refl; writers = λ j. refl; free = refl; unlocked = refl }

replaced-leaks_example :
    (t : Threads.System) × Steps 2 (Threads.initial 1) t
    × AtRest t
    × (t.shared.map ≡ 4)
    × (t.shared.refs 4 ≡ some 1)
    × ((u : Threads.System) → Steps 2 t u → u.shared.refs 1 ≡ some 2)
replaced-leaks_example =
    replaced-leaks (Threads.initial 1) 0 0 4 first_thread initial-AtRest refl refl

-- The new maps at 4 and at 5.
release-stale_example :
    (t : Threads.System) × Steps 2 (Threads.initial 1) t
    × (t.shared.map ≡ 5)
    × (t.readers 0 ≡ Threads.storing 1 4 1)
    × (t.shared.refs 4 ≡ none)
    × ((m : Threads.Shared) (x : Threads.Reader) → Read t.shared (t.readers 0) m x → ⊥)
release-stale_example =
    release-stale (Threads.initial 1) 0 0 4 5 first_thread initial-AtRest refl refl refl
      (omega arith)
