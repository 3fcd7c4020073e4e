-- ===== src/Dictionary/Clear.antt =====
-- _clear_value of lighttable.cpp for a list of values whose strings are apart: the strings are freed.
use lighttable.Prelude.{
  ◌≡◌, ◌≢◌, refl, sym, false, none, List, [], ◌∷◌, inl, inr, arith, ◌==◌, Bool-cases,
}
use lighttable.Struct.{StringSlot, Value, lt_string, lt_ud}
use lighttable.State.{Ptr, State, ok}
use lighttable.Table.{clear_value, clear_values}
use lighttable.Keys.Found.{All}
use lighttable.Strings.Owned.{Owns}
use lighttable.Lifetime.Last.{clear_value-string}

abbrev pub Owned : State → (Value → Ptr) → Value → Type 0
Owned s at v = (v.type ≢ lt_ud) × (v.type ≡ lt_string → (t : StringSlot) × Owns s v.v (at v) t)

abbrev pub Separate : (Value → Ptr) → Value → Value → Type 0
Separate at v u = v.type ≡ lt_string → u.type ≡ lt_string → (v.v ≢ u.v) × (at v ≢ at u)

abbrev pub AllSeparate : (Value → Ptr) → List Value → Type 0
AllSeparate at [] = Unit {0}
AllSeparate at (v ∷ vs) = All (Separate at v) vs × AllSeparate at vs

-- What the values leave behind: their strings are gone, the strings of nobody else are.
pub record Cleared (s : State) (at : Value → Ptr) (vs : List Value) (s' : State) : Type 0 where
  pub gone : All (λ v. v.type ≡ lt_string → (s'.lstrings v.v ≡ none) × (s'.slots (at v) ≡ none)) vs
  pub others :
      (p a : Ptr) (t : StringSlot)
      → All (λ v. v.type ≡ lt_string → (p ≢ v.v) × (a ≢ at v)) vs
      → Owns s p a t
      → Owns s' p a t
  pub lstrings_gone : (p : Ptr) → s.lstrings p ≡ none → s'.lstrings p ≡ none
  pub slots_gone : (a : Ptr) → s.slots a ≡ none → s'.slots a ≡ none

-- A value that is no string.
record Unchanged (s s' : State) : Type 0 where
  lstrings : s'.lstrings ≡ s.lstrings
  slots : s'.slots ≡ s.slots

clear_value-Unchanged :
    (s : State) (v : Value)
    → v.type ≢ lt_string
    → v.type ≢ lt_ud
    → (s' : State) × (clear_value v s ≡ ok tt s') × Unchanged s s'
unfolding clear_value
clear_value-Unchanged s v other no_table =
    let is : (v.type == lt_string) ≡ false = ground arith in
    let plain : (v.type == lt_ud) ≡ false = ground arith in
    (s, rw (is, plain) refl, record { lstrings = refl; slots = refl })

-- One value, before the values that follow.
record Step (s : State) (at : Value → Ptr) (v : Value) (s' : State) : Type 0 where
  gone : v.type ≡ lt_string → (s'.lstrings v.v ≡ none) × (s'.slots (at v) ≡ none)
  others :
      (p a : Ptr) (t : StringSlot)
      → (v.type ≡ lt_string → (p ≢ v.v) × (a ≢ at v))
      → Owns s p a t
      → Owns s' p a t
  lstrings_gone : (p : Ptr) → s.lstrings p ≡ none → s'.lstrings p ≡ none
  slots_gone : (a : Ptr) → s.slots a ≡ none → s'.slots a ≡ none

clear_value-Step :
    (s : State) (at : Value → Ptr) (v : Value)
    → Owned s at v
    → (s' : State) × (clear_value v s ≡ ok tt s') × Step s at v s'
clear_value-Step s at v (no_table, owned) = elim (Bool-cases (v.type == lt_string)) [
  | inl is ↦
      let string : v.type ≡ lt_string = ground arith in
      let (t, o) = owned string in
      let (s', run, freed) = clear_value-string s v (at v) t string o in
      (
        s',
        run,
        record {
          gone = λ e. (freed.lstring, freed.slot);
          others = λ p a u far other. freed.others p a u (far string).0 (far string).1 other;
          lstrings_gone = freed.lstrings_gone;
          slots_gone = freed.slots_gone;
        },
      )
  | inr not ↦
      let other : v.type ≢ lt_string = ground arith in
      let (s', run, same) = clear_value-Unchanged s v other no_table in
      (
        s',
        run,
        record {
          gone = λ e. absurd (other e);
          others = λ p a u far o. record {
            here = rw same.lstrings o.here;
            there = rw same.slots o.there;
            once = o.once;
          };
          lstrings_gone = λ p e. rw same.lstrings e;
          slots_gone = λ a e. rw same.slots e;
        },
      )
]

-- The strings of the values that follow stay.
kept-Owned :
    (s s' : State) (at : Value → Ptr) (v : Value) (vs : List Value)
    → Step s at v s'
    → All (Separate at v) vs
    → All (Owned s at) vs
    → All (Owned s' at) vs
kept-Owned s s' at v [] step far owned = tt
kept-Owned s s' at v (u ∷ vs) step (f, fs) ((no_table, o), os) = (
  (
    no_table,
    λ string.
        let (t, had) = o string in
        (
          t,
          step.others u.v (at u) t
              (λ e. ((λ z. (f e string).0 (sym z)), λ z. (f e string).1 (sym z))) had,
        ),
  ),
  kept-Owned s s' at v vs step fs os,
)

-- _clear_value of each value of a list whose strings are apart.
pub clear_values-Cleared :
    (s : State) (at : Value → Ptr) (vs : List Value)
    → All (Owned s at) vs
    → AllSeparate at vs
    → (s' : State) × (clear_values vs s ≡ ok tt s') × Cleared s at vs s'
unfolding clear_values
clear_values-Cleared s at [] owned apart = (
  s,
  refl,
  record { gone = tt; others = λ p a t far o. o; lstrings_gone = λ p e. e; slots_gone = λ a e. e },
)
clear_values-Cleared s at (v ∷ vs) (owned, rest) (far, apart) =
    let (s₁, run₁, step) = clear_value-Step s at v owned in
    let kept : All (Owned s₁ at) vs = kept-Owned s s₁ at v vs step far rest in
    let (s₂, run₂, cleared) = clear_values-Cleared s₁ at vs kept apart in
    (
      s₂,
      rw (run₁, run₂) refl,
      record {
        gone = (
          (λ e. (
            cleared.lstrings_gone v.v (step.gone e).0,
            cleared.slots_gone (at v) (step.gone e).1,
          )),
          cleared.gone,
        );
        others = λ p a t (f, fs) o. cleared.others p a t fs (step.others p a t f o);
        lstrings_gone = λ p e. cleared.lstrings_gone p (step.lstrings_gone p e);
        slots_gone = λ a e. cleared.slots_gone a (step.slots_gone a e);
      },
    )
