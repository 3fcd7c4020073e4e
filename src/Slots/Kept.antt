-- ===== src/Slots/Kept.antt =====
-- Every step of the threads on a string of lighttable.cpp keeps the counts as they are to be.
use lighttable.Prelude.{
  ℕ, ◌+◌, ◌^◌, ◌<◌, ◌≤◌, ◌≡◌, ◌≢◌, refl, ap, ◌∙◌, Bool, true, false, ◌⊎◌, inl, inr, arith, ◌==◌,
  Bool-cases,
}
use lighttable.Prelude.Family.{
  update, update_same, update_other, sum, sum-change, le-sum, two-le-sum, sum-le, sum-eq_zero,
}
use lighttable.State.{Ptr}
use lighttable.Slots.{
  Shared, Thread, outside, counted, replacing, System, Step, acts, initial, Reach, start, later,
}
use lighttable.Slots.Owed.{bit, claim, frees, locks, Sees, Inv}
use lighttable.Slots.Balance.{Fits, Balanced, Act-Balanced}

claim-le : (s q : Ptr) (t : Thread) → claim s q t ≤ 1
claim-le s q outside = ground arith
claim-le s q t = ground arith

bit-le : (b : Bool) → bit b ≤ 1
bit-le true = omega arith
bit-le false = omega arith

-- A thread without the lock does not rely on the string's slot.
claim-unlocked : (s s' q : Ptr) (t : Thread) → locks t ≡ 0 → claim s' q t ≡ claim s q t
claim-unlocked s s' q outside h = refl
claim-unlocked s s' q (counted n) h = cc
claim-unlocked s s' q t h = refl

Sees-unlocked : (s s' : Ptr) (t : Thread) → locks t ≡ 0 → Sees s t → Sees s' t
Sees-unlocked s s' outside h v = tt
Sees-unlocked s s' (counted n) h v = v
Sees-unlocked s s' (replacing p old) h v = cc
Sees-unlocked s s' t h v = tt

module _ {n : ℕ} {s : System} (few : n < 2 ^ 30) (inv : Inv n s) {i : ℕ} (lt : i < n) where
  pub Inv-Fits : Fits s.shared (s.threads i)
  Inv-Fits = record {
    small = λ q. omega (
      arith,
      inv.owned q,
      sum-le n (λ j. claim s.shared.slot q (s.threads j))
          (λ j. claim-le s.shared.slot q (s.threads j)),
      bit-le (q == s.shared.slot),
    );
    has = λ q. omega (arith, inv.owned q, le-sum n i (λ j. claim s.shared.slot q (s.threads j)) lt);
    ends = λ q. omega (arith, inv.freed q, le-sum n i (λ j. frees q (s.threads j)) lt);
    holds = omega (arith, inv.locked, le-sum n i (λ j. locks (s.threads j)) lt);
    sees = inv.seen i lt;
  }

  module _ {m : Shared} {t : Thread} (b : Balanced s.shared (s.threads i) m t) where
    -- The string's slot is the same for the other threads, or they do not rely on it.
    others : (j : ℕ) → j < n → j ≢ i → (m.slot ≡ s.shared.slot) ⊎ (locks (s.threads j) ≡ 0)
    others j l ne = elim b.kept [
      | inl same ↦ inl same
      | inr one ↦ inr (
          omega (
            arith,
            one,
            inv.locked,
            bit-le s.shared.lock,
            two-le-sum n i j (λ k. locks (s.threads k)) lt l ne,
          ))
    ]

    claim-others :
        (q : Ptr) (j : ℕ)
        → j < n
        → j ≢ i
        → claim m.slot q (update s.threads i t j) ≡ claim s.shared.slot q (s.threads j)
    claim-others q j l ne = rw (update_other s.threads i t j ne) (elim (others j l ne) [
      | inl same ↦ rw same refl
      | inr free ↦ claim-unlocked s.shared.slot m.slot q (s.threads j) free
    ])

    Sees-others : (j : ℕ) → j < n → Sees m.slot (update s.threads i t j)
    Sees-others j l = elim (Bool-cases (j == i)) [
      | inl here ↦ let e : j ≡ i = ground arith in rw (e, update_same s.threads i t) b.sees
      | inr there ↦
          let ne : j ≢ i = ground arith in
          rw (update_other s.threads i t j ne) (elim (others j l ne) [
            | inl same ↦ rw same (inv.seen j l)
            | inr free ↦ Sees-unlocked s.shared.slot m.slot (s.threads j) free (inv.seen j l)
          ])
    ]

    -- A weight of the threads that the step changes at one thread alone.
    sum-step :
        (f g : Thread → ℕ)
        → ((j : ℕ) → j < n → j ≢ i → g (update s.threads i t j) ≡ f (s.threads j))
        → sum n (λ j. g (update s.threads i t j)) + f (s.threads i)
          ≡ sum n (λ j. f (s.threads j)) + g t
    sum-step f g same =
        sum-change n i (λ j. g (update s.threads i t j)) (λ j. f (s.threads j)) lt same
        ∙ ap (λ r. sum n (λ j. f (s.threads j)) + g r) (update_same s.threads i t)

    pub Balanced-Inv : Inv n (record { shared = m; threads = update s.threads i t })
    Balanced-Inv = record {
      owned = λ q. omega (
        arith,
        inv.owned q,
        b.claims q,
        sum-step (claim s.shared.slot q) (claim m.slot q) (claim-others q),
      );
      freed = λ q. omega (
        arith,
        inv.freed q,
        b.spares q,
        sum-step (frees q) (frees q) (λ j l ne. ap (frees q) (update_other s.threads i t j ne)),
      );
      locked = omega (
        arith,
        inv.locked,
        b.lock,
        sum-step locks locks (λ j l ne. ap locks (update_other s.threads i t j ne)),
      );
      seen = Sees-others;
    }

pub Step-Inv : {n : ℕ} {s t : System} → n < 2 ^ 30 → Inv n s → Step n s t → Inv n t
Step-Inv few inv (acts i lt a) = Balanced-Inv few inv lt (Act-Balanced a (Inv-Fits few inv lt))

initial-Inv : (n : ℕ) (p : Ptr) → Inv n (initial p)
initial-Inv n p = record {
  owned = λ q. ground (arith, sum-eq_zero n (λ j. 0) (λ j l. refl));
  freed = λ q. ground (arith, sum-eq_zero n (λ j. 0) (λ j l. refl));
  locked = sum-eq_zero n (λ j. 0) (λ j l. refl);
  seen = λ i lt. tt;
}

pub Reach-Inv : {n : ℕ} {p : Ptr} {s : System} → n < 2 ^ 30 → Reach n p s → Inv n s
Reach-Inv {n} {p} few start = initial-Inv n p
Reach-Inv few (later r st) = Step-Inv few (Reach-Inv few r) st
