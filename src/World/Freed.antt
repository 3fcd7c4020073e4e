-- ===== src/World/Freed.antt =====
-- _release of lighttable.cpp on a table that holds strings and other tables.
use lighttable.Prelude.{
  ℕ, zero, suc, ◌+◌, ◌-◌, ◌^◌, ◌≡◌, ◌≢◌, refl, ap, ◌≤◌, ◌<◌, true, false, none, some, List, [], ◌∷◌,
  ◌==◌, arith, ◌∙◌,
}
use lighttable.Prelude.Word.{to_int}
use lighttable.Struct.{Value, lt_string, lt_ud}
use lighttable.Lmap.Delete.{values, delete-all}
use lighttable.State.{Ptr, Table, State, ok, Method, write}
use lighttable.Table.{clear_value, store_lstring}
use lighttable.Table.Valid.{IsTable}
use lighttable.Strings.Owned.{load_lstring-ok, free_slot-ok}
use lighttable.Lifetime.{getref, set_table_ref}
use lighttable.World.{World, Action, entering, on}
use lighttable.World.Reading.{on-reads}
use lighttable.World.Release.{
  forget_table, reset_members, last_values, clear_at, clear_all, delete_at, release_at,
}
use lighttable.World.Cells.{
  Cell, table_at, has, has-append, Apart, Apart-head, Apart-sym, Distinct, Distinct-prefix,
  Distinct-suffix, Distinct-Apart, Without, Without-nil, Without-append, SameBut, Without-SameBut,
}
use lighttable.World.Owned.{
  Thing, Things, plain, text, table, nil, thing, cells, all_cells, depth, depth_all, HasSlot, Holds,
  AllHold, Keeps, AllHold-SameBut,
}

-- The world with another table at the address.
abbrev pub put_table : World → Ptr → Table → World
put_table w p t = record w {
  memory = record w.memory { tables = write w.memory.tables p (some t) };
}

pub put_table_at : (w : World) (p : Ptr) (t : Table) → (put_table w p t).memory.tables p ≡ some t
put_table_at w p t = ground arith

put_table-SameBut :
    (w : World) (p : Ptr) (t : Table) → SameBut (table_at p ∷ []) w (put_table w p t)
unfolding has
put_table-SameBut w p t = record {
  tables = λ q out. ground arith;
  lstrings = λ q out. refl;
  slots = λ q out. refl;
}

-- A method that returns the table changed, and no string.
on-put :
    {A : Type 0} (w : World) (p : Ptr) (t t' : Table) (m : Method A) (a : A)
    → w.memory.tables p ≡ some t
    → m (entering w t) ≡ ok a (entering w t')
    → on p m w ≡ ok a (put_table w p t')
on-put w p t t' m a there run = rw (there, run) refl

-- A text: _clear_value frees the lstring and its slot.
clear_at-text :
    (again : Ptr → Action (Unit {0})) (w : World) (q : Ptr) (tb : Table) (v : Value) (p a : Ptr)
    → w.memory.tables q ≡ some tb
    → v.type ≡ lt_string
    → v.v ≡ p
    → HasSlot w p a
    → (w' : World) × (clear_at again q v w ≡ ok tt w') × Without (cells (text p a)) w w'
unfolding clear_at clear_value store_lstring has cells
clear_at-text again w q tb v p a there string e h =
    let no_table : (v.type == lt_ud) ≡ false = ground arith in
    let is : (v.type == lt_string) ≡ true = ground arith in
    (
      record w {
        memory = record w.memory {
          tables = write w.memory.tables q (some tb);
          lstrings = write w.memory.lstrings p none;
          slots = write w.memory.slots a none;
        };
      },
      rw
          (
            no_table,
            there,
            is,
            e,
            load_lstring-ok p (entering w tb) h.here,
            free_slot-ok a (entering w tb) h.there,
          )
          refl,
      record {
        tables = λ r. ground arith;
        lstrings = λ r. ground arith;
        slots = λ r. ground arith;
        serialed = refl;
        printed = refl;
      },
    )

clear_value-plain :
    (s : State) (v : Value) → v.type ≢ lt_string → v.type ≢ lt_ud → clear_value v s ≡ ok tt s
unfolding clear_value
clear_value-plain s v no_string no_ud =
    let is : (v.type == lt_string) ≡ false = ground arith in
    let no_table : (v.type == lt_ud) ≡ false = ground arith in rw (is, no_table) refl

clear_at-plain :
    (again : Ptr → Action (Unit {0})) (w : World) (q : Ptr) (tb : Table) (v : Value)
    → w.memory.tables q ≡ some tb
    → v.type ≢ lt_string
    → v.type ≢ lt_ud
    → clear_at again q v w ≡ ok tt w
unfolding clear_at
clear_at-plain again w q tb v there no_string no_ud =
    let no_table : (v.type == lt_ud) ≡ false = ground arith in
    let run = clear_value-plain (entering w tb) v no_string no_ud in
    rw no_table (on-reads w q tb there (clear_value v) tt run)

clear_at-table :
    (again : Ptr → Action (Unit {0})) (q : Ptr) (v : Value) (w : World)
    → v.type ≡ lt_ud
    → clear_at again q v w ≡ again v.v w
unfolding clear_at
clear_at-table again q v w ud = let is : (v.type == lt_ud) ≡ true = ground arith in rw is refl

Apart-single : (p : Ptr) (cs : List Cell) → has (table_at p) cs ≡ false → Apart cs (table_at p ∷ [])
Apart-single p cs out = Apart-sym (table_at p ∷ []) cs (Apart-head (table_at p) cs out)

-- What the loop over the values of a table does to the world.
abbrev pub Clears : (Ptr → Action (Unit {0})) → Things → Type 0
Clears again ts =
    (vs : List Value) (p : Ptr) (tb : Table) (w : World)
    → w.memory.tables p ≡ some tb
    → has (table_at p) (all_cells ts) ≡ false
    → Distinct (all_cells ts)
    → AllHold w vs ts
    → (w' : World) × (clear_all again p vs w ≡ ok tt w') × Without (all_cells ts) w w'

pub delete_at-Clears :
    (again : Ptr → Action (Unit {0})) (p : Ptr) (ts : Things) (w : World) (tb : Table)
    → Clears again ts
    → w.memory.tables p ≡ some tb
    → IsTable tb
    → AllHold w (values tb.map.buckets) ts
    → Distinct (table_at p ∷ all_cells ts)
    → (w' : World) × (delete_at again p w ≡ ok tt w') × Without (table_at p ∷ all_cells ts) w w'
unfolding delete_at reset_members last_values forget_table has
delete_at-Clears again p ts w tb clears there quiet held (out, distinct) =
    let reset : Table = record tb { ref = 0; lock = 0; map_lock = 0 } in
    let w₁ = put_table w p reset in
    let here : w₁.memory.tables p ≡ some reset = put_table_at w p reset in
    let vs = values tb.map.buckets in
    let run₁ : on p reset_members w ≡ ok tt w₁ = on-put w p tb reset reset_members tt there refl in
    let run₂ : on p last_values w₁ ≡ ok vs w₁ =
      on-reads w₁ p reset here last_values vs
        (ap (λ l. ok l (entering w₁ reset)) (delete-all quiet.map)) in
    let held₁ =
      AllHold-SameBut (table_at p ∷ []) w w₁ (put_table-SameBut w p reset) vs ts
        (Apart-single p (all_cells ts) out) held in
    let (w₂, run₃, gone) = clears vs p reset w₁ here out distinct held₁ in
    (
      record w₂ { memory = record w₂.memory { tables = write w₂.memory.tables p none } },
      rw (run₁, run₂, run₃) refl,
      record {
        tables = λ q. ground (arith, gone.tables q);
        lstrings = λ q. ground (arith, gone.lstrings q);
        slots = λ q. ground (arith, gone.slots q);
        serialed = gone.serialed;
        printed = gone.printed;
      },
    )

release_at-Clears :
    (d : ℕ) (p : Ptr) (ts : Things) (w : World)
    → Clears (release_at d) ts
    → Keeps w p ts
    → Distinct (table_at p ∷ all_cells ts)
    → (w' : World) × (release_at (suc d) p w ≡ ok tt w') × Without (table_at p ∷ all_cells ts) w w'
unfolding release_at getref set_table_ref has
release_at-Clears d p ts w clears (o, held) (out, distinct) =
    let tb = o.this in
    let zero_left : to_int (tb.ref + 2 ^ 32 - 1) ≡ 0 = ground (arith, o.last) in
    let last : Table = record tb { ref = 0 } in
    let w₁ = put_table w p last in
    let run₁ : on p getref w ≡ ok tb.ref w = on-reads w p tb o.there getref tb.ref refl in
    let run₂ : on p (set_table_ref 0) w ≡ ok tt w₁ =
      on-put w p tb last (set_table_ref 0) tt o.there refl in
    let held₁ =
      AllHold-SameBut (table_at p ∷ []) w w₁ (put_table-SameBut w p last) (values tb.map.buckets) ts
        (Apart-single p (all_cells ts) out) held in
    let quiet : IsTable last = record {
      map = o.quiet.map;
      held = o.quiet.held;
      unlocked = o.quiet.unlocked;
      map_unlocked = o.quiet.map_unlocked;
    } in
    let (w₂, run₃, gone) =
      delete_at-Clears (release_at d) p ts w₁ last clears (put_table_at w p last) quiet held₁
        (out, distinct) in
    (
      w₂,
      rw (run₁, zero_left, run₂, run₃) refl,
      record {
        tables = λ q. ground (arith, gone.tables q);
        lstrings = λ q. gone.lstrings q;
        slots = λ q. gone.slots q;
        serialed = gone.serialed;
        printed = gone.printed;
      },
    )

mutual
  unfolding cells depth Holds clear_all

  clear_at-Without :
      (d : ℕ) (t : Thing) (v : Value) (p : Ptr) (tb : Table) (w : World)
      → depth t ≤ d
      → w.memory.tables p ≡ some tb
      → Distinct (cells t)
      → Holds w v t
      → (w' : World) × (clear_at (release_at d) p v w ≡ ok tt w') × Without (cells t) w w'
  clear_at-Without d plain v p tb w deep there distinct (no_string, no_ud) =
      (w, clear_at-plain (release_at d) w p tb v there no_string no_ud, Without-nil w)
  clear_at-Without d (text q a) v p tb w deep there distinct (string, e, h) =
      clear_at-text (release_at d) w p tb v q a there string e h
  clear_at-Without zero (table q ts) v p tb w deep there distinct h = absurd (omega arith)
  clear_at-Without (suc d) (table q ts) v p tb w deep there distinct (ud, e, o, held) =
      let (w', run, gone) =
        release_at-Clears d q ts w (clear_all-Without d ts (omega arith)) (o, held) distinct in
      (w', clear_at-table (release_at (suc d)) p v w ud ∙ rw e run, gone)

  pub clear_all-Without : (d : ℕ) (ts : Things) → depth_all ts ≤ d → Clears (release_at d) ts
  clear_all-Without d nil deep [] p tb w there out distinct h = (w, refl, Without-nil w)
  clear_all-Without d nil deep (v ∷ vs) p tb w there out distinct h = elim h [ ]
  clear_all-Without d (thing t ts) deep [] p tb w there out distinct h = elim h [ ]
  clear_all-Without d (thing t ts) deep (v ∷ vs) p tb w there out distinct (h, hs) =
      let apart = Distinct-Apart (cells t) (all_cells ts) distinct in
      let far : has (table_at p) (cells t) ≡ false =
        ground (arith, has-append (table_at p) (cells t) (all_cells ts)) in
      let far' : has (table_at p) (all_cells ts) ≡ false =
        ground (arith, has-append (table_at p) (cells t) (all_cells ts)) in
      let (w₁, run₁, gone₁) =
        clear_at-Without d t v p tb w (omega arith) there
          (Distinct-prefix (cells t) (all_cells ts) distinct) h in
      let same = Without-SameBut (cells t) w w₁ gone₁ in
      let hs₁ =
        AllHold-SameBut (cells t) w w₁ same vs ts (Apart-sym (cells t) (all_cells ts) apart) hs in
      let (w₂, run₂, gone₂) =
        clear_all-Without d ts (omega arith) vs p tb w₁ (same.tables p far ∙ there) far'
          (Distinct-suffix (cells t) (all_cells ts) distinct) hs₁ in
      (w₂, rw (run₁, run₂) refl, Without-append (cells t) (all_cells ts) w w₁ w₂ gone₁ gone₂)

-- On a table that no method works on and that holds numbers, booleans, strings and tables, to each of
-- which tables, as to itself, there is one reference and on which no method works, where no two of
-- the tables and strings share a table, lstring or slot: _release, on a stack deeper than the tables
-- lie in each other, returns without a fault and frees the table and all the tables, lstrings and
-- slots that it holds, and nothing else; the buffer of serialize and the output stay as they were.
pub release_at-Without :
    (d : ℕ) (p : Ptr) (ts : Things) (w : World)
    → Keeps w p ts
    → Distinct (table_at p ∷ all_cells ts)
    → depth_all ts < d
    → (w' : World) × (release_at d p w ≡ ok tt w') × Without (table_at p ∷ all_cells ts) w w'
release_at-Without zero p ts w keeps distinct deep = absurd (omega arith)
release_at-Without (suc d) p ts w keeps distinct deep =
    release_at-Clears d p ts w (clear_all-Without d ts (omega arith)) keeps distinct
