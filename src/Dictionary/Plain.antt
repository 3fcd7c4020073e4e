-- ===== src/Dictionary/Plain.antt =====
-- set_number, set_boolean and set_ud of lighttable.cpp on a table that stands for a dictionary.
use lighttable.Prelude.{
  ℕ, ◌≡◌, ◌≢◌, ◌<◌, ◌^◌, refl, sym, ap, ◌∙◌, false, Option, none, some, ◌⊎◌, inl, inr, arith,
  Bool-cases,
}
use lighttable.Struct.{Key, StringSlot, Value, lt_string, lt_ud}
use lighttable.Lmap.Stored.{IsKey, same_key, same_key_iff}
use lighttable.Lmap.Chain.{replaced, type_of}
use lighttable.State.{Ptr, Lstring, State, ok}
use lighttable.Table.Valid.{reads}
use lighttable.Table.Read.{Kind, number, boolean, ud, tag}
use lighttable.Table.Insert.{Inserted}
use lighttable.Table.Write.{put, built, kept, outcome-fits, fitting, reads-Inserted, put-Sets}
use lighttable.Strings.Owned.{Owns}
use lighttable.Dictionary.{Content, plain, text, Contents, insert, Suits, Means, Apart, Represents}

-- Contents and entries that stand for them stay so where the strings stay.
pub Means-kept :
    (s s' : State) (c : Option Content) (o : Option Value)
    → ((v : Value)
        → o ≡ some v
        → v.type ≡ lt_string
        → (a : Ptr) (t : StringSlot) → Owns s v.v a t
        → Owns s' v.v a t)
    → Means s c o
    → Means s' c o
Means-kept s s' none none keep m = tt
Means-kept s s' none (some v) keep m = m
Means-kept s s' (some c) none keep m = m
Means-kept s s' (some (plain kind w)) (some v) keep m = m
Means-kept s s' (some (text b)) (some v) keep (is, h) = (
  is,
  record {
    slot = h.slot;
    content = h.content;
    owns = keep v refl is h.slot h.content h.owns;
    reads_text = h.reads_text;
  },
)

-- The slot that an lstring points to is one.
slot_at : Ptr → Option Lstring → Ptr
slot_at d none = d
slot_at d (some l) = l.slot

pub Owns-slot : (s : State) (p a b : Ptr) (t u : StringSlot) → Owns s p a t → Owns s p b u → a ≡ b
unfolding slot_at
Owns-slot s p a b t u x y = ap (slot_at a) (sym x.here ∙ y.here)

-- A string entry stands for a text.
pub Means-Owns :
    (s : State) (c : Option Content) (v : Value)
    → v.type ≡ lt_string
    → Means s c (some v)
    → (a : Ptr) × (t : StringSlot) × Owns s v.v a t
Means-Owns s none v is m = elim m [ ]
Means-Owns s (some (plain number w)) v is (e, _) = absurd (omega (arith, is, e))
Means-Owns s (some (plain boolean w)) v is (e, _) = absurd (omega (arith, is, e))
Means-Owns s (some (plain ud w)) v is (e, _) = absurd (omega (arith, is, e))
Means-Owns s (some (text b)) v is (_, h) = (h.slot, h.content, h.owns)

-- No user data stands for what is none.
pub Means-plain :
    (s : State) (c : Option Content) (v : Value)
    → ((w : ℕ) → c ≢ some (plain ud w))
    → Means s c (some v)
    → v.type ≢ lt_ud
Means-plain s none v no_ud m e = elim m [ ]
Means-plain s (some (plain number w)) v no_ud (is, _) e = omega (arith, is, e)
Means-plain s (some (plain boolean w)) v no_ud (is, _) e = omega (arith, is, e)
Means-plain s (some (plain ud w)) v no_ud m e = no_ud w refl
Means-plain s (some (text b)) v no_ud (is, _) e = omega (arith, is, e)

pub tag-ne-string : (kind : Kind) → tag kind ≢ lt_string
tag-ne-string number = omega arith
tag-ne-string boolean = omega arith
tag-ne-string ud = omega arith

Suits-old :
    (s : State) (c : Option Content) (o : Option Value) (kind : Kind) (w : ℕ)
    → Means s c o
    → Suits c (plain kind w)
    → (o ≡ none) ⊎ (type_of o ≡ tag kind)
unfolding type_of
Suits-old s none none kind w m suits = inl refl
Suits-old s none (some v) kind w m suits = elim m [ ]
Suits-old s (some (plain kind' w')) none kind w m suits = elim m [ ]
Suits-old s (some (text b)) none kind w m suits = elim m [ ]
Suits-old s (some (plain kind' w')) (some v) kind w (e, _) suits = inr (e ∙ suits)
Suits-old s (some (text b)) (some v) kind w m suits = elim suits [ ]

module _ {s s' : State} {k : Key} {v : Value} (is : Inserted s k v s') where
  Owns-Inserted : (p a : Ptr) (t : StringSlot) → Owns s p a t → Owns s' p a t
  Owns-Inserted p a t o = record {
    here = rw is.lstrings o.here;
    there = rw is.slots o.there;
    once = o.once;
  }

  Inserted-Owns : (p a : Ptr) (t : StringSlot) → Owns s' p a t → Owns s p a t
  Inserted-Owns p a t o = record {
    here = rw (← is.lstrings) o.here;
    there = rw (← is.slots) o.there;
    once = o.once;
  }

  reads-other : (q : Key) → same_key q k ≡ false → reads s' q ≡ reads s q
  reads-other q other = rw (is.reads_as q, other) refl

module _ {s s' : State} {f : Contents} (r : Represents s f) (k : Key) (kind : Kind) (w : ℕ)
    (tmp : Value) (fits : (reads s k ≡ none) ⊎ (type_of (reads s k) ≡ tag kind))
    (is : Inserted s k (built kind w tmp) s') where
  plain-Means : (q : Key) → Means s' (insert k (plain kind (kept kind w)) f q) (reads s' q)
  plain-Means q = elim (Bool-cases (same_key q k)) [
    | inl same ↦
        let e : q ≡ k = (same_key_iff q k).0 same in
        rw (same, e, reads-Inserted is) (fitting (reads s k) kind w tmp fits)
    | inr other ↦
        rw (other, reads-other is q other)
          (Means-kept s s' (f q) (reads s q) (λ v e string a t o. Owns-Inserted is v.v a t o)
            (r.means q))
  ]

  -- A string entry is an old one.
  string-old : (q : Key) (v : Value) → reads s' q ≡ some v → v.type ≡ lt_string → reads s q ≡ some v
  unfolding type_of
  string-old q v there string = elim (Bool-cases (same_key q k)) [
    | inl same ↦
        let e : q ≡ k = (same_key_iff q k).0 same in
        let there' : reads s' k ≡ some v = rw e at there in
        let types : (replaced (reads s k) (built kind w tmp)).type ≡ v.type =
          ap type_of (sym (reads-Inserted is) ∙ there') in
        absurd (tag-ne-string kind (sym (fitting (reads s k) kind w tmp fits).0 ∙ (types ∙ string)))
    | inr other ↦ sym (reads-other is q other) ∙ there
  ]

  plain-Apart : Apart s'
  plain-Apart q q' v v' a a' t t' ne e e' is_string is_string' o o' =
      r.apart q q' v v' a a' t t' ne (string-old q v e is_string) (string-old q' v' e' is_string')
        is_string is_string' (Inserted-Owns is v.v a t o) (Inserted-Owns is v'.v a' t' o')

  pub Represents-plain : Represents s' (insert k (plain kind (kept kind w)) f)
  Represents-plain = record { quiet = is.quiet; means = plain-Means; apart = plain-Apart }

-- A setter of a plain value, on a table that stands for a dictionary in which the key has no content
-- or one of the same kind.
pub put-Represents :
    (s : State) (f : Contents) (kind : Kind) (w : ℕ) (k : Key) (tmp : Value)
    → Represents s f
    → IsKey k
    → s.table.map.size < 2 ^ 30
    → Suits (f k) (plain kind w)
    → (s' : State) × (put kind k w tmp s ≡ ok 0 s')
      × Represents s' (insert k (plain kind (kept kind w)) f)
put-Represents s f kind w k tmp r key room suits =
    let fits = Suits-old s (f k) (reads s k) kind w (r.means k) suits in
    let (s', run, is) = put-Sets s r.quiet k key room kind w tmp in
    (s', rw (outcome-fits (reads s k) kind fits) at run, Represents-plain r k kind w tmp fits is)
