-- ===== src/Slots/Safety.antt =====
-- What the threads on a string of lighttable.cpp can rely on.
use lighttable.Prelude.{
  ℕ, zero, suc, ◌+◌, ◌^◌, ◌<◌, ◌≤◌, ◌≡◌, refl, sym, ap, ◌∙◌, Bool, true, false, Option, none, some,
  arith, ◌==◌, if◌then◌else◌,
}
use lighttable.Prelude.Family.{sum, sum-eq_zero}
use lighttable.State.{Ptr}
use lighttable.Table.{above_one}
use lighttable.Slots.{
  Shared, Thread, outside, grabbing, counted, holding, reading, freeing, made, swapping, replacing,
  swapped, lowered, deleting, System, Reach,
}
use lighttable.Slots.Owed.{bit, claim, frees, locks, owed, spare, Inv}
use lighttable.Slots.Balance.{Fits}
use lighttable.Slots.Kept.{Reach-Inv, Inv-Fits}

-- Some thread, or the string, refers to the slot, which is in memory.
abbrev pub Referred : Shared → Ptr → Type 0
Referred m p = (c : ℕ) × (m.refs p ≡ some (suc c))

-- No thread and no string refers to the slot, which is in memory, and one thread is to free it.
abbrev pub Unreferred : ℕ → System → Ptr → Type 0
Unreferred n s p =
    (s.shared.refs p ≡ some 0)
    × (sum n (λ j. claim s.shared.slot p (s.threads j)) + bit (p == s.shared.slot) ≡ 0)
    × (sum n (λ j. frees p (s.threads j)) ≡ 1)

-- What the next access of a thread needs: the slot that it uses is in memory with a count above 0,
-- the assertion holds, and the slot that it frees is one that nobody else has.
abbrev pub Sound : ℕ → System → Thread → Type 0
Sound n s outside = Unit
Sound n s grabbing = Referred s.shared s.shared.slot
Sound n s (counted r) = above_one r ≡ true
Sound n s (holding p) = Referred s.shared p
Sound n s (reading p) = Referred s.shared p
Sound n s (freeing p) = Unreferred n s p
Sound n s (made p) = Referred s.shared p
Sound n s (swapping p) = Referred s.shared p
Sound n s (replacing p old) = Referred s.shared p × (old ≡ s.shared.slot)
Sound n s (swapped old) = Referred s.shared old
Sound n s (lowered old r) = Unit
Sound n s (deleting old) = Unreferred n s old

owed-Referred : (c : Option ℕ) → 1 ≤ owed c → (k : ℕ) × (c ≡ some (suc k))
owed-Referred none h = absurd (omega arith)
owed-Referred (some zero) h = absurd (omega arith)
owed-Referred (some (suc k)) h = (k, refl)

spare-some : (c : Option ℕ) → 1 ≤ spare c → c ≡ some 0
spare-some none h = absurd (omega arith)
spare-some (some zero) h = refl
spare-some (some (suc k)) h = absurd (omega arith)

-- A slot in memory with the count 0 has nobody but the thread that is to free it.
Inv-Unreferred :
    {n : ℕ} {s : System} → Inv n s → (p : Ptr) → 1 ≤ spare (s.shared.refs p) → Unreferred n s p
Inv-Unreferred {s = s} inv p h =
    let zero_left : s.shared.refs p ≡ some 0 = spare-some (s.shared.refs p) h in
    (zero_left, inv.owned p ∙ ap owed zero_left, inv.freed p ∙ ap spare zero_left)

module _ {n : ℕ} {s : System} (inv : Inv n s) where
  Fits-Sound : (t : Thread) → Fits s.shared t → Sound n s t
  Fits-Sound outside f = tt
  Fits-Sound grabbing f =
      owed-Referred (s.shared.refs s.shared.slot) (ground (arith, f.has s.shared.slot))
  Fits-Sound (counted r) f = f.sees
  Fits-Sound (holding p) f = owed-Referred (s.shared.refs p) (ground (arith, f.has p))
  Fits-Sound (reading p) f = owed-Referred (s.shared.refs p) (ground (arith, f.has p))
  Fits-Sound (freeing p) f = Inv-Unreferred inv p (ground (arith, f.ends p))
  Fits-Sound (made p) f = owed-Referred (s.shared.refs p) (ground (arith, f.has p))
  Fits-Sound (swapping p) f = owed-Referred (s.shared.refs p) (ground (arith, f.has p))
  Fits-Sound (replacing p old) f =
      (owed-Referred (s.shared.refs p) (ground (arith, f.has p)), f.sees)
  Fits-Sound (swapped old) f = owed-Referred (s.shared.refs old) (ground (arith, f.has old))
  Fits-Sound (lowered old r) f = tt
  Fits-Sound (deleting old) f = Inv-Unreferred inv old (ground (arith, f.ends old))

-- Where fewer than 2^30 threads call value_string, get_string and _update_string of one string, in
-- any interleaving: each next access of a thread is to a slot that is in memory with a count above
-- 0, the assertion of _grab_string holds, and a slot that is about to be freed has the count 0, is
-- referred to by no thread and not by the string, and is to be freed by one thread only.
pub Reach-Sound :
    {n : ℕ} {p : Ptr} {s : System}
    → n < 2 ^ 30
    → Reach n p s
    → (i : ℕ) → i < n
    → Sound n s (s.threads i)
Reach-Sound {s = s} few r i lt =
    let inv = Reach-Inv few r in Fits-Sound inv (s.threads i) (Inv-Fits few inv lt)

count-one :
    (c : Option ℕ) (b : Bool) → bit b ≡ owed c → 0 ≡ spare c → c ≡ (if b then some 1 else none)
count-one none true h k = absurd (omega arith)
count-one none false h k = refl
count-one (some c) true h k = ap some (sym h)
count-one (some zero) false h k = absurd (omega arith)
count-one (some (suc c)) false h k = absurd (omega arith)

bit-zero : (b : Bool) → bit b ≡ 0 → b ≡ false
bit-zero true h = absurd (omega arith)
bit-zero false h = refl

-- Where fewer than 2^30 threads have called value_string, get_string and _update_string of one
-- string, in any interleaving, and are all done: the lock is free, the slot of the string is in
-- memory with the count 1, and every other slot has been freed.
pub rest-one_slot :
    {n : ℕ} {p : Ptr} {s : System}
    → n < 2 ^ 30
    → Reach n p s
    → ((i : ℕ) → i < n → s.threads i ≡ outside)
    → (s.shared.lock ≡ false)
      × ((q : Ptr) → s.shared.refs q ≡ (if q == s.shared.slot then some 1 else none))
rest-one_slot {n} {s = s} few r done =
    let inv = Reach-Inv few r in
    (
      bit-zero s.shared.lock (
          omega (
            arith,
            inv.locked,
            sum-eq_zero n (λ i. locks (s.threads i)) (λ i lt. ap locks (done i lt)),
          )),
      (λ q.
          count-one (s.shared.refs q) (q == s.shared.slot)
            (omega (
              arith,
              inv.owned q,
              sum-eq_zero n (λ i. claim s.shared.slot q (s.threads i))
                  (λ i lt. ap (claim s.shared.slot q) (done i lt)),
            ))
            (omega (
              arith,
              inv.freed q,
              sum-eq_zero n (λ i. frees q (s.threads i)) (λ i lt. ap (frees q) (done i lt)),
            ))),
    )
