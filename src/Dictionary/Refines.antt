-- ===== src/Dictionary/Refines.antt =====
-- The setters and getters of lighttable.cpp as those of a dictionary.
use lighttable.Prelude.{
  ℕ, ◌≡◌, ◌≢◌, ◌<◌, ◌^◌, refl, sym, ap, ◌∙◌, Option, none, some, arith, length, take,
}
use lighttable.Prelude.Word.{IsInt, to_size}
use lighttable.Struct.{Bytes, Key, StringSlot, Value, lt_string, lt_nil}
use lighttable.Lmap.Stored.{IsKey, same_key_iff}
use lighttable.State.{Ptr, State, ok}
use lighttable.Table.{new_table, get_type}
use lighttable.Table.Valid.{IsTable, reads, new_table-IsTable}
use lighttable.Table.Read.{tag, as_read, get, typed-ok, get-typed, get_type-found}
use lighttable.Strings.{set_string, get_string}
use lighttable.Strings.Owned.{Owns, SameState}
use lighttable.Strings.Update.{Replaced}
use lighttable.Strings.Text.{Added, set_string-string, set_string-new, get_string-ok}
use lighttable.Dictionary.{
  Content, plain, text, Contents, set_content, stored, insert, Suits, Fits, Means, Represents,
}
use lighttable.Dictionary.Plain.{Owns-slot, put-Represents}
use lighttable.Dictionary.Texts.{differs, Represents-Written}

-- What the getter for a content gives: the plain value, or the address of a slot that holds the text;
-- get_type gives the type nil where there is none. The table and the strings stay as they are.
abbrev pub Answers : State → Key → Value → Option Content → Type 0
Answers s q tmp none = get_type q tmp s ≡ ok (lt_nil, tmp.v) s
Answers s q tmp (some (plain kind w)) = get kind q tmp s ≡ ok w s
Answers s q tmp (some (text b)) =
    (a : Ptr) × (t : StringSlot) × (s' : State) × (get_string q tmp s ≡ ok (some a) s')
    × SameState s s'
    × (s'.slots a ≡ some t)
    × (take (to_size t.sz) t.buf ≡ b)

entry-Answers :
    (s : State) (q : Key) (tmp : Value) (c : Option Content) (o : Option Value)
    → IsTable s.table
    → reads s q ≡ o
    → Means s c o
    → Answers s q tmp c
entry-Answers s q tmp none none quiet e m = get_type-found s quiet q tmp ∙ rw e refl
entry-Answers s q tmp none (some v) quiet e m = elim m [ ]
entry-Answers s q tmp (some (plain kind w)) none quiet e m = elim m [ ]
entry-Answers s q tmp (some (text b)) none quiet e m = elim m [ ]
entry-Answers s q tmp (some (plain kind w)) (some v) quiet e (is, read) =
    get-typed s quiet q tmp kind
    ∙ rw e (typed-ok s v (tag kind) (as_read kind) is ∙ ap (λ x. ok x s) read)
entry-Answers s q tmp (some (text b)) (some v) quiet e (is, h) =
    let (s', run, same) = get_string-ok s quiet q tmp v h.slot h.content e is h.owns in
    (h.slot, h.content, s', run, same, same.slots h.slot ∙ h.owns.there, h.reads_text)

pub Represents-Answers :
    (s : State) (f : Contents) (q : Key) (tmp : Value) → Represents s f → Answers s q tmp (f q)
Represents-Answers s f q tmp r = entry-Answers s q tmp (f q) (reads s q) r.quiet refl (r.means q)

some-v : (u v : Value) → some u ≡ some v → u.v ≡ v.v
some-v u v e = ground arith

-- A new string under a new key.
pub new-Represents :
    (s s' : State) (f : Contents) (k : Key) (b : Bytes) (tmp : Value) (ls ns : Ptr)
    → Represents s f
    → Added s k tmp ls ns b s'
    → Represents s' (insert k (text b) f)
new-Represents s s' f k b tmp ls ns r added =
    let v : Value = record tmp { ref = 1; type = lt_string; v = ls } in
    let at_k : reads s' k ≡ some v = rw (added.reads_as k, (same_key_iff k k).1 refl) refl in
    Represents-Written r {k = k} {p = ls} {n = added.holds.slot}
      (record {
        same = λ q ne. rw (added.reads_as q, differs q k ne) refl;
        at_key = λ u e. some-v u v (sym e ∙ at_k);
        slot = λ a t o. Owns-slot s' ls a added.holds.slot t added.holds.content o added.holds.owns;
        keep = λ q u a t ne e string o. added.others u.v a t o;
        far = λ q u a t ne e string o. added.apart u.v a t o;
      })
      b v added.quiet at_k refl added.holds

-- A string that takes the place of another.
Replaced-Represents :
    (s s' : State) (f : Contents) (k : Key) (b : Bytes) (v : Value) (a ns : Ptr) (t : StringSlot)
    → Represents s f
    → reads s k ≡ some v
    → v.type ≡ lt_string
    → Owns s v.v a t
    → Replaced s v.v a ns b s'
    → Represents s' (insert k (text b) f)
Replaced-Represents s s' f k b v a ns t r there string owns done =
    let far =
      λ (q : Key) (u : Value) (c : Ptr) (x : StringSlot) (ne : q ≢ k) (e : reads s q ≡ some u)
          (is : u.type ≡ lt_string) (o : Owns s u.v c x).
        r.apart q k u v c a x t ne e there is string o owns in
    Represents-Written r {k = k} {p = v.v} {n = done.holds.slot}
      (record {
        same = λ q ne. rw done.table refl;
        at_key = λ u e. some-v u v (sym e ∙ rw done.table there);
        slot = λ c x o. Owns-slot s' v.v c done.holds.slot x done.holds.content o done.holds.owns;
        keep = λ q u c x ne e is o.
            done.others u.v c x (far q u c x ne e is o).0 (far q u c x ne e is o).1 o;
        far = λ q u c x ne e is o. ((far q u c x ne e is o).0, done.apart u.v c x o);
      })
      b v (rw done.table r.quiet) (rw done.table there) string done.holds

-- set_string on a table that stands for a dictionary in which the key has no content, or a text.
set_string-Represents :
    (s : State) (f : Contents) (k : Key) (b : Bytes) (ls ns : Ptr) (tmp : Value)
    → Represents s f
    → IsKey k
    → s.table.map.size < 2 ^ 30
    → s.lstrings ls ≡ none
    → s.slots ns ≡ none
    → IsInt (length b)
    → (c : Option Content) (o : Option Value) → reads s k ≡ o
    → Means s c o
    → Suits c (text b)
    → (s' : State) × (set_string k b ls ns tmp s ≡ ok 0 s') × Represents s' (insert k (text b) f)
set_string-Represents s f k b ls ns tmp r key room fresh_ls fresh_ns small none none e m suits =
    let (s', run, added) =
      set_string-new s r.quiet k tmp ls ns b key room e fresh_ls fresh_ns small in
    (s', run, new-Represents s s' f k b tmp ls ns r added)
set_string-Represents s f k b ls ns tmp r key room fresh_ls fresh_ns small none (some v) e m suits =
    elim m [ ]
set_string-Represents s f k b ls ns tmp r key room fresh_ls fresh_ns small (some (text c)) (some v)
      e (is, h) suits =
    let (s', run, done) =
      set_string-string s r.quiet k tmp v h.slot ls ns h.content b e is h.owns fresh_ns small in
    (s', run, Replaced-Represents s s' f k b v h.slot ns h.content r e is h.owns done)
set_string-Represents s f k b ls ns tmp r key room fresh_ls fresh_ns small (some (text c)) none e m
      suits =
    elim m [ ]
set_string-Represents s f k b ls ns tmp r key room fresh_ls fresh_ns small (some (plain kind w)) o e
      m suits =
    elim suits [ ]

pub set_content-Represents :
    (s : State) (f : Contents) (c : Content) (k : Key) (ls ns : Ptr) (tmp : Value)
    → Represents s f
    → IsKey k
    → s.table.map.size < 2 ^ 30
    → Suits (f k) c
    → Fits c
    → s.lstrings ls ≡ none
    → s.slots ns ≡ none
    → (s' : State) × (set_content c k ls ns tmp s ≡ ok 0 s') × Represents s' (insert k (stored c) f)
set_content-Represents s f (plain kind w) k ls ns tmp r key room suits fits fresh_ls fresh_ns =
    put-Represents s f kind w k tmp r key room suits
set_content-Represents s f (text b) k ls ns tmp r key room suits fits fresh_ls fresh_ns =
    set_string-Represents s f k b ls ns tmp r key room fresh_ls fresh_ns fits (f k) (reads s k) refl
      (r.means k) suits

-- A table that no method works on, with fewer than 2^30 slots, stands for a dictionary from keys to
-- numbers, booleans, user data and texts, where each entry has the type and bytes of its content and
-- each text an lstring and slot that no other entry shares. Under a key that an int can hold and
-- that has no content or one of the same kind, set_number, set_boolean, set_ud and set_string, with
-- unused addresses for a new lstring and slot and a text whose length an int can hold, return 0, and
-- the table then stands for the dictionary with the new content under the key (of a boolean its 32
-- bits). Afterwards the getter for the content of any key returns it, or the slot that holds the
-- text, get_type gives the type nil where there is none, and both leave the table and the strings as
-- they were.
pub set_content-refines :
    (s : State) (f : Contents) (c : Content) (k : Key) (ls ns : Ptr) (tmp : Value)
    → Represents s f
    → IsKey k
    → s.table.map.size < 2 ^ 30
    → Suits (f k) c
    → Fits c
    → s.lstrings ls ≡ none
    → s.slots ns ≡ none
    → (s' : State) × (set_content c k ls ns tmp s ≡ ok 0 s')
      × Represents s' (insert k (stored c) f)
      × ((q : Key) (tmp' : Value) → Answers s' q tmp' (insert k (stored c) f q))
set_content-refines s f c k ls ns tmp r key room suits fits fresh_ls fresh_ns =
    let (s', run, r') =
      set_content-Represents s f c k ls ns tmp r key room suits fits fresh_ls fresh_ns in
    (s', run, r', λ q tmp'. Represents-Answers s' (insert k (stored c) f) q tmp' r')

-- A new table stands for the empty dictionary.
pub new_table-Represents :
    (s : State) (map_size : ℕ)
    → 0 < map_size
    → map_size < 2 ^ 31
    → s.table ≡ new_table map_size
    → Represents s (λ q. none)
new_table-Represents s map_size pos small e =
    let (quiet, one, none_there) = new_table-IsTable map_size pos small in
    let empty : (q : Key) → reads s q ≡ none = λ q. rw e (none_there q) in
    record {
      quiet = rw e quiet;
      means = λ q. rw (empty q) tt;
      apart = λ q q' v v' a a' t t' ne there there' is is' o o'. cc (empty q, there);
    }
