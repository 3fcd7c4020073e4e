-- ===== src/Threads/Races.antt =====
-- What two readers of lighttable.cpp do to the count of a map: _release_map reads it, lowers a copy
-- and writes that back, so that another reader's _grab_map in between is lost.
use lighttable.Prelude.{ℕ, ◌<◌, ◌≡◌, ◌≢◌, refl, sym, false, none, some, ◌∙◌}
use lighttable.Threads.{outside, Read, System}
use lighttable.Threads.Runs.{
  ReadRun-snoc, Steps, Steps-trans, grab-ReadRun, put-ReadRun, last-ReadRun, run-Alone,
}

-- Of two readers that search at the same time, one can delete the map of the table: from any state
-- in which two of the readers do not search, no thread has `map_lock` and the count of the map is 1,
-- steps of these two readers alone lead to one in which both are done, and the map that the table
-- still refers to is deleted, while all other threads are where they were.
pub readers-delete :
    {n : ℕ} (s : System) (i j : ℕ)
    → i < n
    → j < n
    → i ≢ j
    → s.readers i ≡ outside
    → s.readers j ≡ outside
    → s.shared.map_lock ≡ false
    → s.shared.refs s.shared.map ≡ some 1
    → (t : System) × Steps n s t
      × (t.shared.map ≡ s.shared.map)
      × (t.shared.refs s.shared.map ≡ none)
      × (t.readers i ≡ outside)
      × (t.readers j ≡ outside)
      × ((k : ℕ) → k ≢ i → k ≢ j → t.readers k ≡ s.readers k)
      × (t.writers ≡ s.writers)
readers-delete {n} s i j lti ltj ne ei ej free one =
    let p = s.shared.map in
    let (m₁, grab_i, rest₁, _) =
      grab-ReadRun s.shared p 1 refl (record { map = refl; free = free; count = one }) in
    let (s₁, steps₁, shared₁, at_i, others₁, writer₁) =
      run-Alone n s i lti refl ei (ReadRun-snoc grab_i (Read.uncount rest₁.count)) in
    let (m₂, grab_j, rest₂, _) = grab-ReadRun m₁ p 2 refl rest₁ in
    let (s₂, steps₂, shared₂, at_j, others₂, writer₂) =
      run-Alone n s₁ j ltj shared₁ (others₁ j (λ e. ne (sym e)) ∙ ej) grab_j in
    let (m₃, put_i, rest₃, _) = put-ReadRun m₂ p p 3 1 refl rest₂ in
    let (s₃, steps₃, shared₃, done_i, others₃, writer₃) =
      run-Alone n s₂ i lti shared₂ (others₂ i ne ∙ at_i) put_i in
    let (m₄, last_j, map₄, gone) = last-ReadRun m₃ p rest₃ in
    let (s₄, steps₄, shared₄, done_j, others₄, writer₄) =
      run-Alone n s₃ j ltj shared₃ (others₃ j (λ e. ne (sym e)) ∙ at_j) last_j in
    (
      s₄,
      Steps-trans steps₁ (Steps-trans steps₂ (Steps-trans steps₃ steps₄)),
      rw shared₄ map₄,
      rw shared₄ gone,
      others₄ i ne ∙ done_i,
      done_j,
      (λ k ni nj. others₄ k nj ∙ (others₃ k ni ∙ (others₂ k nj ∙ others₁ k ni))),
      writer₄ ∙ (writer₃ ∙ (writer₂ ∙ writer₁)),
    )
