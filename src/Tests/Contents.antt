-- ===== src/Tests/Contents.antt =====
-- The theorems on the table as a dictionary, at a new table and at the sample table.
use lighttable.Prelude.{
  ℕ, ◌≡◌, ◌≢◌, refl, sym, ◌∙◌, true, none, some, [], ◌∷◌, arith, inl, inr, Bool-cases,
  if◌then◌else◌,
}
use lighttable.Struct.{Key, name, index, Value, lt_string}
use lighttable.Util.{hash}
use lighttable.Util.Hash.{hash-lt}
use lighttable.Lmap.{numkey, new_lmap, find, is_in_hash, matches}
use lighttable.Lmap.Valid.{view}
use lighttable.Lmap.Stored.{same_key, same_key_iff}
use lighttable.State.{State, ok}
use lighttable.Table.{new_table}
use lighttable.Table.Valid.{reads}
use lighttable.Table.Read.{number, ud}
use lighttable.Strings.Update.{HoldsText}
use lighttable.Lifetime.{release}
use lighttable.Dictionary.{plain, text, Contents, set_content, insert, Means, Represents}
use lighttable.Dictionary.Refines.{Answers, set_content-refines, new_table-Represents}
use lighttable.Dictionary.Release.{Gone, release-Gone}
use lighttable.Tests.Tables.{
  hi, junk, sample, sample-IsTable, slot_hi, hi-Owns, seventy_seven, pointer,
}

-- A new table, and no strings.
abbrev fresh : State
fresh = record { table = new_table 29; lstrings = λ p. none; slots = λ p. none }

fresh-Represents : Represents fresh (λ q. none)
fresh-Represents = new_table-Represents fresh 29 (omega arith) (omega arith) refl

abbrev with_hi : Contents
with_hi = insert (index 7) (text hi) (λ q. none)

set_content-refines_example :
    (s' : State) × (set_content (text hi) (index 7) 101 201 junk fresh ≡ ok 0 s')
    × Represents s' with_hi
    × ((q : Key) (tmp' : Value) → Answers s' q tmp' (with_hi q))
unfolding new_table new_lmap
set_content-refines_example =
    set_content-refines fresh (λ q. none) (text hi) (index 7) 101 201 junk fresh-Represents
      (omega arith) (omega arith) tt (omega arith) refl refl

-- The sample table, with a number under 5 and a text under 6.
abbrev pub sample_contents : Contents
sample_contents = insert (index 5) (plain number 77) (insert (index 6) (text hi) (λ q. none))

sample-HoldsText : HoldsText sample 100 hi
sample-HoldsText = record { slot = 200; content = slot_hi; owns = hi-Owns; reads_text = refl }

-- Its chain.
sample-find :
    (k : Key)
    → find k
        (record { key = numkey 5; v = seventy_seven } ∷ record { key = numkey 6; v = pointer } ∷ [])
      ≡ (if same_key k (index 5)
          then some seventy_seven
          else (if same_key k (index 6) then some pointer else none))
unfolding find is_in_hash matches same_key
sample-find (name b) = refl
sample-find (index n) = ground arith

-- The map has one slot.
sample-reads :
    (q : Key)
    → reads sample q ≡ (
        if same_key q (index 5)
        then some seventy_seven
        else (if same_key q (index 6) then some pointer else none))
unfolding view
sample-reads q =
    let first : hash q 1 ≡ 0 = omega (arith, hash-lt q 1 (omega arith) (omega arith)) in
    rw first (sample-find q)

sample-Means : (q : Key) → Means sample (sample_contents q) (reads sample q)
sample-Means q = elim (Bool-cases (same_key q (index 5))) [
  | inl five ↦ rw (sample-reads q, five) (refl, refl)
  | inr no_five ↦ elim (Bool-cases (same_key q (index 6))) [
    | inl six ↦ rw (sample-reads q, no_five, six) (refl, sample-HoldsText)
    | inr no_six ↦ rw (sample-reads q, no_five, no_six) tt
  ]
]

string-six : (q : Key) (v : Value) → reads sample q ≡ some v → v.type ≡ lt_string → q ≡ index 6
string-six q v e string =
    ground (arith, sample-reads q, same_key_iff q (index 5), same_key_iff q (index 6))

pub sample-Represents : Represents sample sample_contents
sample-Represents = record {
  quiet = sample-IsTable;
  means = sample-Means;
  apart = λ q q' v v' a a' t t' ne e e' string string' o o'.
      absurd (ne (string-six q v e string ∙ sym (string-six q' v' e' string')));
}

-- No entry of the sample is user data.
sample-plain : (q : Key) (w : ℕ) → sample_contents q ≢ some (plain ud w)
sample-plain q w e = elim (Bool-cases (same_key q (index 5))) [
  | inl five ↦
      let none_such : some (plain number 77) ≡ some (plain ud w) = rw five at e in cc none_such
  | inr not_five ↦ elim (Bool-cases (same_key q (index 6))) [
    | inl six ↦
        let none_such : some (text hi) ≡ some (plain ud w) = rw (not_five, six) at e in cc none_such
    | inr not_six ↦
        let none_such : none ≡ some (plain ud w) = rw (not_five, not_six) at e in cc none_such
  ]
]

release-Gone_example : (s' : State) × (release sample ≡ ok true s') × Gone sample s'
release-Gone_example = release-Gone sample sample_contents sample-Represents sample-plain refl
