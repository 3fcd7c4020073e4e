-- ===== src/Strings/Update.antt =====
-- _update_string of lighttable.cpp.
use lighttable.Prelude.{
  ◌+◌, ◌-◌, ◌^◌, ◌≡◌, refl, ◌≢◌, none, some, [], ◌∷◌, length, take, arith, ap, take-length-append,
}
use lighttable.Prelude.Word.{to_int, to_size, IsInt, to_size-to_int}
use lighttable.Struct.{Bytes, StringSlot}
use lighttable.Util.{new_string}
use lighttable.State.{Ptr, State, ok, write}
use lighttable.Table.{store_lstring}
use lighttable.Strings.{update_string, store_slot}
use lighttable.Strings.Owned.{
  Owns, write_self, load_lstring-ok, load_slot-ok, free_slot-ok, take_string_lock-ok,
  free_string_lock-ok,
}

-- The `lstring` at `p` holds the text.
pub record HoldsText (s : State) (p : Ptr) (text : Bytes) : Type 0 where
  pub slot : Ptr
  pub content : StringSlot
  pub owns : Owns s p slot content
  pub reads_text : take (to_size content.sz) content.buf ≡ text

pub new_string-text :
    (text : Bytes)
    → IsInt (length text)
    → take (to_size (new_string text).sz) (new_string text).buf ≡ text
unfolding new_string
new_string-text text h = rw (to_size-to_int (length text) h) (take-length-append text (0 ∷ []))

module _ (s : State) (p a ns : Ptr) (t : StringSlot) (text : Bytes) where
  abbrev stored : State
  stored = record s { slots = write s.slots ns (some (new_string text)) }

  abbrev locked : State
  locked = record stored { lstrings = write s.lstrings p (some (record { lock = 1; slot = a })) }

  abbrev moved : State
  moved = record locked {
    lstrings = write locked.lstrings p (some (record { lock = 1; slot = ns }));
  }

  abbrev dropped : State
  dropped = record moved { slots = write moved.slots a (some (record t { ref = 0 })) }

  abbrev unlocked : State
  unlocked = record dropped {
    lstrings = write dropped.lstrings p (some (record { lock = 0; slot = ns }));
  }

  abbrev updated : State
  updated = record unlocked { slots = write unlocked.slots a none }

  update_string-ok : Owns s p a t → ns ≢ a → update_string p text ns s ≡ ok tt updated
  unfolding update_string store_slot store_lstring
  update_string-ok owns ne =
      let kept : stored.slots a ≡ some t = ground (arith, owns.there) in
      let last : to_int (t.ref + 2 ^ 32 - 1) ≡ 0 = ground (arith, owns.once) in
      rw
        (
          take_string_lock-ok p stored owns.here refl,
          load_lstring-ok p locked (write_self s.lstrings p (some (record { lock = 1; slot = a }))),
          load_slot-ok a moved kept,
          last,
          free_string_lock-ok p dropped
              (write_self locked.lstrings p (some (record { lock = 1; slot = ns }))),
          free_slot-ok a unlocked (write_self moved.slots a (some (record t { ref = 0 }))),
        )
        refl

module _ (s : State) (p a ns : Ptr) (t : StringSlot) (text : Bytes) (owns : Owns s p a t)
    (fresh : s.slots ns ≡ none) (small : IsInt (length text)) where
  fresh-ne : ns ≢ a
  fresh-ne e = cc (ap s.slots e, fresh, owns.there)

  updated-HoldsText : HoldsText (updated s p a ns t text) p text
  unfolding new_string
  updated-HoldsText = record {
    slot = ns;
    content = new_string text;
    owns = record { here = ground arith; there = ground (arith, fresh-ne); once = refl };
    reads_text = new_string-text text small;
  }

  updated-Owns :
      (q b : Ptr) (u : StringSlot)
      → q ≢ p
      → b ≢ a
      → Owns s q b u
      → Owns (updated s p a ns t text) q b u
  updated-Owns q b u q-ne b-ne other =
      let b-new : b ≢ ns = λ e. cc (ap s.slots e, fresh, other.there) in
      record {
        here = ground (arith, other.here);
        there = ground (arith, other.there);
        once = other.once;
      }

-- The string at `p` is replaced by the text, in the new slot `ns`: the old slot `a` is freed, and
-- the table and every other string stay as they were.
pub record Replaced (s : State) (p a ns : Ptr) (text : Bytes) (s' : State) : Type 0 where
  pub table : s'.table ≡ s.table
  pub holds : HoldsText s' p text
  pub freed : s'.slots a ≡ none
  pub others : (q b : Ptr) (u : StringSlot) → q ≢ p → b ≢ a → Owns s q b u → Owns s' q b u
  pub apart : (q b : Ptr) (u : StringSlot) → Owns s q b u → b ≢ holds.slot

pub update_string-Replaced :
    (s : State) (p a ns : Ptr) (t : StringSlot) (text : Bytes)
    → Owns s p a t
    → s.slots ns ≡ none
    → IsInt (length text)
    → (s' : State) × (update_string p text ns s ≡ ok tt s') × Replaced s p a ns text s'
unfolding updated-HoldsText
update_string-Replaced s p a ns t text owns fresh small = (
  updated s p a ns t text,
  update_string-ok s p a ns t text owns (fresh-ne s p a ns t text owns fresh small),
  record {
    table = refl;
    holds = updated-HoldsText s p a ns t text owns fresh small;
    freed = write_self (unlocked s p a ns t text).slots a none;
    others = updated-Owns s p a ns t text owns fresh small;
    apart = λ q b u other e. cc (ap s.slots e, fresh, other.there);
  },
)
