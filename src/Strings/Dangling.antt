-- ===== src/Strings/Dangling.antt =====
-- The address that get_string of lighttable.cpp returns, under a later set_string.
use lighttable.Prelude.{◌≡◌, refl, ◌≢◌, some, none, length, take, sym, ◌∙◌}
use lighttable.Prelude.Word.{IsInt, to_size}
use lighttable.Struct.{Bytes, Key, StringSlot, Value, lt_string}
use lighttable.State.{Ptr, State, ok}
use lighttable.Table.Valid.{IsTable, reads}
use lighttable.Strings.{get_string, set_string}
use lighttable.Strings.Owned.{Owns, SameState}
use lighttable.Strings.Text.{get_string-ok, set_string-string}

module _ (s s' : State) (same : SameState s s') where
  SameState-IsTable : IsTable s.table → IsTable s'.table
  SameState-IsTable quiet = rw same.table quiet

  SameState-reads : (k : Key) → reads s' k ≡ reads s k
  SameState-reads k = rw same.table refl

  SameState-Owns : (p a : Ptr) (t : StringSlot) → Owns s p a t → Owns s' p a t
  SameState-Owns p a t owns = record {
    here = same.lstrings p ∙ owns.here;
    there = same.slots a ∙ owns.there;
    once = owns.once;
  }

-- On a table that no method works on and a key whose entry is a string with an lstring and slot of
-- its own, get_string returns the address of that slot; set_string of the key, with an unused
-- address for the new slot and a text whose length an int can hold, then returns 0 and frees the
-- slot at the address that get_string gave, and get_string of the key then returns the address of
-- another slot, which holds the text.
pub get_string-dangles :
    (s : State) (k : Key) (tmp v : Value) (a ls ns : Ptr) (t : StringSlot) (text : Bytes)
    → IsTable s.table
    → reads s k ≡ some v
    → v.type ≡ lt_string
    → Owns s v.v a t
    → s.slots ns ≡ none
    → IsInt (length text)
    → (s₁ : State) × (get_string k tmp s ≡ ok (some a) s₁)
      × (s₁.slots a ≡ some t)
      × (s₂ : State) × (set_string k text ls ns tmp s₁ ≡ ok 0 s₂)
      × (s₂.slots a ≡ none)
      × (s₃ : State) × (b : Ptr) × (get_string k tmp s₂ ≡ ok (some b) s₃)
      × (b ≢ a)
      × (u : StringSlot) × (s₃.slots b ≡ some u)
      × (take (to_size u.sz) u.buf ≡ text)
get_string-dangles s k tmp v a ls ns t text quiet there string owns fresh small =
    let (s₁, got, same) = get_string-ok s quiet k tmp v a t there string owns in
    let quiet₁ = SameState-IsTable s s₁ same quiet in
    let there₁ = SameState-reads s s₁ same k ∙ there in
    let owns₁ = SameState-Owns s s₁ same v.v a t owns in
    let (s₂, set, done) =
      set_string-string s₁ quiet₁ k tmp v a ls ns t text there₁ string owns₁ (same.slots ns ∙ fresh)
        small in
    let h = done.holds in
    let there₂ : reads s₂ k ≡ some v = rw done.table there₁ in
    let (s₃, got', same') =
      get_string-ok s₂ (rw done.table quiet₁) k tmp v h.slot h.content there₂ string h.owns in
    (
      s₁,
      got,
      owns₁.there,
      s₂,
      set,
      done.freed,
      s₃,
      h.slot,
      got',
      (λ e. done.apart v.v a t owns₁ (sym e)),
      h.content,
      same'.slots h.slot ∙ h.owns.there,
      h.reads_text,
    )
