-- ===== src/Strings/Owned.antt =====
-- _grab_string, _release_string and value_string of lighttable.cpp.
use lighttable.Prelude.{ℕ, ◌+◌, ◌-◌, ◌^◌, ◌≡◌, refl, true, Option, none, some, ◌==◌, take, arith}
use lighttable.Prelude.Word.{to_int, to_size}
use lighttable.Struct.{StringSlot}
use lighttable.State.{Ptr, Lstring, State, ok, pure, ◌>>=◌, ◌>>◌, write}
use lighttable.Table.{load_lstring, store_lstring, free_slot}
use lighttable.Strings.{
  grab_string, release_string, value_string, load_slot, store_slot, take_string_lock,
  free_string_lock,
}

-- At `p` is an `lstring` that nobody has locked; its slot at `a` holds `t`, to which only it refers.
pub record Owns (s : State) (p a : Ptr) (t : StringSlot) : Type 0 where
  pub here : s.lstrings p ≡ some (record { lock = 0; slot = a })
  pub there : s.slots a ≡ some t
  pub once : t.ref ≡ 1

abbrev counted : StringSlot → ℕ → StringSlot
counted t n = record t { ref = n }

pub write_self {ℓ} : {A : Type ℓ} (h : Ptr → Option A) (p : Ptr) (x : Option A) → write h p x p ≡ x
write_self h p x = ground arith

abbrev after_grab : State → Ptr → Ptr → StringSlot → State
after_grab s p a t = record s {
  lstrings =
      write (write s.lstrings p (some (record { lock = 1; slot = a }))) p
        (some (record { lock = 0; slot = a }));
  slots = write s.slots a (some (counted t 2));
}

-- The steps, at memory whose contents are known.
module _ (p : Ptr) (s : State) where
  pub load_lstring-ok : {l : Lstring} → s.lstrings p ≡ some l → load_lstring p s ≡ ok l s
  unfolding load_lstring
  load_lstring-ok e = rw (e, load_lstring) refl

  pub load_slot-ok : {t : StringSlot} → s.slots p ≡ some t → load_slot p s ≡ ok t s
  unfolding load_slot
  load_slot-ok e = rw (e, load_slot) refl

  pub free_slot-ok :
      {t : StringSlot}
      → s.slots p ≡ some t
      → free_slot p s ≡ ok tt (record s { slots = write s.slots p none })
  unfolding free_slot
  free_slot-ok e = rw (e, free_slot) refl

  pub take_string_lock-ok :
      {l : Lstring}
      → s.lstrings p ≡ some l
      → l.lock ≡ 0
      → take_string_lock p s
        ≡ ok tt (record s { lstrings = write s.lstrings p (some (record l { lock = 1 })) })
  unfolding take_string_lock store_lstring
  take_string_lock-ok {l} e free =
      let u : (l.lock == 0) ≡ true = ground arith in rw (load_lstring-ok e, u) refl

  pub free_string_lock-ok :
      {l : Lstring}
      → s.lstrings p ≡ some l
      → free_string_lock p s
        ≡ ok tt (record s { lstrings = write s.lstrings p (some (record l { lock = 0 })) })
  unfolding free_string_lock store_lstring
  free_string_lock-ok e = rw (load_lstring-ok e) refl

module _ (s : State) (p a : Ptr) (t : StringSlot) (owns : Owns s p a t) where
  locked : State
  locked = record s { lstrings = write s.lstrings p (some (record { lock = 1; slot = a })) }

  grab_string-ok : grab_string p s ≡ ok a (after_grab s p a t)
  unfolding grab_string store_slot locked
  grab_string-ok =
      let two : to_int (t.ref + 1) ≡ 2 = ground (arith, owns.once) in
      let at = write_self s.lstrings p (some (record { lock = 1; slot = a })) in
      rw
        (
          take_string_lock-ok p s owns.here refl,
          load_lstring-ok p locked at,
          load_slot-ok a locked owns.there,
          two,
          free_string_lock-ok p (record locked { slots = write s.slots a (some (counted t 2)) }) at,
        )
        refl

-- A slot with two references loses one, and one with a single reference is freed.
module _ (s : State) (a : Ptr) (t : StringSlot) (there : s.slots a ≡ some t) where
  release_string-two :
      t.ref ≡ 2
      → release_string a s ≡ ok tt (record s { slots = write s.slots a (some (counted t 1)) })
  unfolding release_string store_slot
  release_string-two e =
      let one : to_int (t.ref + 2 ^ 32 - 1) ≡ 1 = ground arith in
      rw (load_slot-ok a s there, one) refl

  pub release_string-one :
      t.ref ≡ 1
      → release_string a s
        ≡ ok tt (record s { slots = write (write s.slots a (some (counted t 0))) a none })
  unfolding release_string store_slot
  release_string-one e =
      let none_left : to_int (t.ref + 2 ^ 32 - 1) ≡ 0 = ground arith in
      let at = write_self s.slots a (some (counted t 0)) in
      rw
        (
          load_slot-ok a s there,
          none_left,
          free_slot-ok a (record s { slots = write s.slots a (some (counted t 0)) }) at,
        )
        refl

-- The same table, and memory with the same contents at every address.
pub record SameState (s s' : State) : Type 0 where
  pub table : s'.table ≡ s.table
  pub lstrings : (p : Ptr) → s'.lstrings p ≡ s.lstrings p
  pub slots : (p : Ptr) → s'.slots p ≡ s.slots p

module _ (s : State) (p a : Ptr) (t : StringSlot) (owns : Owns s p a t) where
  grabbed : State
  grabbed = after_grab s p a t

  after_release : State
  after_release = record grabbed { slots = write grabbed.slots a (some (counted (counted t 2) 1)) }

  grabbed-slot : grabbed.slots a ≡ some (counted t 2)
  unfolding grabbed
  grabbed-slot = write_self s.slots a (some (counted t 2))

  SameState-after_release : SameState s after_release
  unfolding after_release grabbed
  SameState-after_release = record {
    table = refl;
    lstrings = λ q. ground (arith, owns.here);
    slots = λ q. ground (arith, owns.there, owns.once);
  }

  pub grab_release :
      (s' : State) × ((grab_string p >>= λ b. release_string b >> pure (some b)) s ≡ ok (some a) s')
      × SameState s s'
  unfolding after_release grabbed
  grab_release = (
    after_release,
    rw (grab_string-ok s p a t owns, release_string-two grabbed a (counted t 2) grabbed-slot refl)
        refl,
    SameState-after_release,
  )

  -- For an lstring that nobody has locked and whose slot has one reference, value_string hands its
  -- callback the bytes of the slot; the table and the contents of memory, with the lock and the
  -- count of references, are afterwards what they were.
  pub value_string-ok :
      (s' : State) × (value_string p s ≡ ok (take (to_size t.sz) t.buf) s') × SameState s s'
  unfolding value_string after_release grabbed
  value_string-ok = (
    after_release,
    rw
        (
          grab_string-ok s p a t owns,
          load_slot-ok a grabbed grabbed-slot,
          release_string-two grabbed a (counted t 2) grabbed-slot refl,
        )
        refl,
    SameState-after_release,
  )
