-- ===== src/World/Reading.antt =====
-- Methods that leave a table and its strings as they were.
use lighttable.Prelude.{◌≡◌, refl, Option, some, arith, ap, ◌∙◌}
use lighttable.State.{Ptr, Table, State, ok, Method, write}
use lighttable.Strings.Owned.{SameState}
use lighttable.World.{World, entering, leaving, on}

write_same {ℓ} :
    {A : Type ℓ} (h : Ptr → Option A) (p q : Ptr) {x : Option A} → h p ≡ x → write h p x q ≡ h q
write_same h p q e = ground arith

pub SameState-refl : (s : State) → SameState s s
SameState-refl s = record { table = refl; lstrings = λ p. refl; slots = λ p. refl }

module _ (w : World) (p : Ptr) (t : Table) (there : w.memory.tables p ≡ some t) where
  pub leaving-same : (s : State) → SameState (entering w t) s → leaving w p s ≡ w
  leaving-same s same = λ i. record w {
    memory = record {
      tables = λ q.
          (ap (λ u. write w.memory.tables p (some u) q) same.table
              ∙ write_same w.memory.tables p q there)
            i;
      lstrings = λ q. same.lstrings q i;
      slots = λ q. same.slots q i;
    };
  }

  -- A method that leaves its state the same leaves the world the same.
  pub on-same :
      {A : Type 0} (m : Method A) (a : A) (s : State)
      → m (entering w t) ≡ ok a s
      → SameState (entering w t) s
      → on p m w ≡ ok a w
  on-same m a s run same = rw (there, run) (ap (λ w'. ok a w') (leaving-same s same))

  pub on-reads :
      {A : Type 0} (m : Method A) (a : A)
      → m (entering w t) ≡ ok a (entering w t)
      → on p m w ≡ ok a w
  on-reads m a run = on-same m a (entering w t) run (SameState-refl (entering w t))
