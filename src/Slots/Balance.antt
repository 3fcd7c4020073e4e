-- ===== src/Slots/Balance.antt =====
-- What one step on a string of lighttable.cpp changes: as many references as the count of a slot,
-- and the lock with the thread that has it.
use lighttable.Prelude.{◌+◌, ◌^◌, ◌<◌, ◌≤◌, ◌≡◌, refl, ◌⊎◌, inl, inr, arith, ◌==◌}
use lighttable.State.{Ptr}
use lighttable.Slots.{Shared, Thread, Grabbing, Updating, Act}
use lighttable.Slots.Owed.{bit, claim, frees, locks, Sees, owed, spare}

-- What is known of a thread by the others.
pub record Fits (m : Shared) (t : Thread) : Type 0 where
  pub small : (q : Ptr) → owed (m.refs q) + 1 < 2 ^ 31
  pub has : (q : Ptr) → claim m.slot q t + bit (q == m.slot) ≤ owed (m.refs q)
  pub ends : (q : Ptr) → frees q t ≤ spare (m.refs q)
  pub holds : locks t ≤ bit m.lock
  pub sees : Sees m.slot t

pub record Balanced (m : Shared) (t : Thread) (m' : Shared) (t' : Thread) : Type 0 where
  pub claims :
      (q : Ptr)
      → claim m'.slot q t' + bit (q == m'.slot) + owed (m.refs q)
        ≡ claim m.slot q t + bit (q == m.slot) + owed (m'.refs q)
  pub spares : (q : Ptr) → frees q t' + spare (m.refs q) ≡ frees q t + spare (m'.refs q)
  pub lock : locks t' + bit m.lock ≡ locks t + bit m'.lock
  pub sees : Sees m'.slot t'
  pub kept : (m'.slot ≡ m.slot) ⊎ (locks t ≡ 1)

Grabbing-Balanced :
    {m m' : Shared} {t t' : Thread} → Grabbing m t m' t' → Fits m t → Balanced m t m' t'
Grabbing-Balanced {m} (Grabbing.take e) f = record {
  claims = λ q. refl;
  spares = λ q. refl;
  lock = ground arith;
  sees = tt;
  kept = inl refl;
}
Grabbing-Balanced {m} (Grabbing.count {r} e) f = record {
  claims = λ q. ground (arith, f.small m.slot);
  spares = λ q. ground (arith, f.small m.slot, f.has m.slot);
  lock = ground arith;
  sees = ground (arith, f.small m.slot, f.has m.slot);
  kept = inl refl;
}
Grabbing-Balanced {m} (Grabbing.pick h) f = record {
  claims = λ q. refl;
  spares = λ q. refl;
  lock = ground arith;
  sees = tt;
  kept = inl refl;
}
Grabbing-Balanced {m} (Grabbing.unlock {p}) f = record {
  claims = λ q. refl;
  spares = λ q. refl;
  lock = ground (arith, f.holds);
  sees = tt;
  kept = inl refl;
}
Grabbing-Balanced {m} (Grabbing.read {p} e) f = record {
  claims = λ q. refl;
  spares = λ q. refl;
  lock = refl;
  sees = tt;
  kept = inl refl;
}
Grabbing-Balanced {m} (Grabbing.release {p} {r} e) f = record {
  claims = λ q. ground (arith, f.small p, f.has p);
  spares = λ q. ground (arith, f.small p, f.has p);
  lock = ground arith;
  sees = ground arith;
  kept = inl refl;
}
Grabbing-Balanced {m} (Grabbing.free {p} {r} e) f = record {
  claims = λ q. ground (arith, f.ends p);
  spares = λ q. ground (arith, f.ends p);
  lock = refl;
  sees = tt;
  kept = inl refl;
}

Updating-Balanced :
    {m m' : Shared} {t t' : Thread} → Updating m t m' t' → Fits m t → Balanced m t m' t'
Updating-Balanced {m} (Updating.make {p} e) f = record {
  claims = λ q. ground arith;
  spares = λ q. ground arith;
  lock = refl;
  sees = tt;
  kept = inl refl;
}
Updating-Balanced {m} (Updating.take_to_swap {p} e) f = record {
  claims = λ q. refl;
  spares = λ q. refl;
  lock = ground arith;
  sees = tt;
  kept = inl refl;
}
Updating-Balanced {m} (Updating.look {p}) f = record {
  claims = λ q. refl;
  spares = λ q. refl;
  lock = refl;
  sees = refl;
  kept = inl refl;
}
Updating-Balanced {m} (Updating.swap {p} {old}) f = record {
  claims = λ q. ground (arith, f.sees);
  spares = λ q. refl;
  lock = refl;
  sees = tt;
  kept = inr refl;
}
Updating-Balanced {m} (Updating.drop {old} {r} e) f = record {
  claims = λ q. ground (arith, f.small old, f.has old);
  spares = λ q. ground (arith, f.small old, f.has old);
  lock = refl;
  sees = tt;
  kept = inl refl;
}
Updating-Balanced {m} (Updating.unlock_swapped {old} {n}) f = record {
  claims = λ q. ground arith;
  spares = λ q. ground arith;
  lock = ground (arith, f.holds);
  sees = ground arith;
  kept = inl refl;
}
Updating-Balanced {m} (Updating.delete {old} {r} e) f = record {
  claims = λ q. ground (arith, f.ends old);
  spares = λ q. ground (arith, f.ends old);
  lock = refl;
  sees = tt;
  kept = inl refl;
}

pub Act-Balanced : {m m' : Shared} {t t' : Thread} → Act m t m' t' → Fits m t → Balanced m t m' t'
Act-Balanced (Act.grabs a) f = Grabbing-Balanced a f
Act-Balanced (Act.updates a) f = Updating-Balanced a f
