-- ===== src/Dictionary/Extends.antt =====
-- The setters of lighttable.cpp at a key without content: what is in memory stays.
use lighttable.Prelude.{◌≡◌, refl, ◌<◌, ◌^◌, Option, none, some, sym, ap, inl}
use mathlib.Core.Path.{subst}
use lighttable.Lmap.Valid.{view}
use lighttable.Struct.{Key, Value, StringSlot, lt_string}
use lighttable.Lmap.Stored.{IsKey}
use lighttable.State.{Ptr, Lstring, State, ok}
use lighttable.Table.Valid.{reads}
use lighttable.Table.Insert.{Inserted-size}
use lighttable.Table.Write.{put-Sets, outcome-fits}
use lighttable.Strings.Owned.{Owns}
use lighttable.Strings.Text.{Extends, set_string-new}
use lighttable.Dictionary.{
  Content, plain, text, Contents, set_content, stored, insert, Fits, Means, Apart, Represents,
}
use lighttable.Dictionary.Plain.{Means-kept, Means-Owns, Owns-slot, Represents-plain}
use lighttable.Dictionary.Refines.{new-Represents}

Means-none : (s : State) (o : Option Value) → Means s none o → o ≡ none
Means-none s none m = refl
Means-none s (some v) m = elim m [ ]

pub set_content-Extends :
    (s : State) (f : Contents) (c : Content) (k : Key) (ls ns : Ptr) (tmp : Value)
    → Represents s f
    → IsKey k
    → s.table.map.size < 2 ^ 30
    → f k ≡ none
    → Fits c
    → s.lstrings ls ≡ none
    → s.slots ns ≡ none
    → (s' : State) × (set_content c k ls ns tmp s ≡ ok 0 s')
      × Represents s' (insert k (stored c) f)
      × Extends s ls ns s'
set_content-Extends s f (plain kind w) k ls ns tmp r key room absent fits fresh_ls fresh_ns =
    let old : reads s k ≡ none = Means-none s (reads s k) (rw absent at (r.means k)) in
    let (s', run, is) = put-Sets s r.quiet k key room kind w tmp in
    (
      s',
      rw (outcome-fits (reads s k) kind (inl old)) at run,
      Represents-plain r k kind w tmp (inl old) is,
      record {
        no_lstrings = λ p ne e. rw is.lstrings e;
        no_slots = λ a ne e. rw is.slots e;
        lstrings = λ p l e. rw is.lstrings e;
        slots = λ a t e. rw is.slots e;
        size = Inserted-size is;
        ref = is.ref;
      },
    )
set_content-Extends s f (text b) k ls ns tmp r key room absent fits fresh_ls fresh_ns =
    let old : reads s k ≡ none = Means-none s (reads s k) (rw absent at (r.means k)) in
    let (s', run, added) =
      set_string-new s r.quiet k tmp ls ns b key room old fresh_ls fresh_ns fits in
    (s', run, new-Represents s s' f k b tmp ls ns r added, added.extends)

-- A table that stays stands for the same dictionary, where what is in memory stays.
module _ (s s' : State) (f : Contents) (r : Represents s f) (table : s'.table ≡ s.table)
    (lstrings : (p : Ptr) (l : Lstring) → s.lstrings p ≡ some l → s'.lstrings p ≡ some l)
    (slots : (a : Ptr) (t : StringSlot) → s.slots a ≡ some t → s'.slots a ≡ some t) where
  Owns-kept : (p a : Ptr) (t : StringSlot) → Owns s p a t → Owns s' p a t
  Owns-kept p a t o = record {
    here = lstrings p (record { lock = 0; slot = a }) o.here;
    there = slots a t o.there;
    once = o.once;
  }

  -- The string of an entry, as it was.
  owned_before :
      (q : Key) (v : Value) (a : Ptr) (t : StringSlot)
      → reads s q ≡ some v
      → v.type ≡ lt_string
      → Owns s' v.v a t
      → (u : StringSlot) × Owns s v.v a u
  owned_before q v a t e string o =
      let (b, u, had) = Means-Owns s (f q) v string (rw e at (r.means q)) in
      let a-b : a ≡ b = Owns-slot s' v.v a b t u o (Owns-kept v.v b u had) in (u, rw a-b had)

  kept-Apart : Apart s'
  kept-Apart q q' v v' a a' t t' ne e e' string string' o o' =
      let here : reads s q ≡ some v = rw table at e in
      let here' : reads s q' ≡ some v' = rw table at e' in
      let (u, had) = owned_before q v a t here string o in
      let (u', had') = owned_before q' v' a' t' here' string' o' in
      r.apart q q' v v' a a' u u' ne here here' string string' had had'

  pub Represents-kept : Represents s' f
  Represents-kept = record {
    quiet = rw table r.quiet;
    means = λ q.
        let same : reads s' q ≡ reads s q = ap (λ t. view t.map q) table in
        subst (λ o. Means s' (f q) o) (sym same)
          (Means-kept s s' (f q) (reads s q) (λ v e string a t o. Owns-kept v.v a t o) (r.means q));
    apart = kept-Apart;
  }
