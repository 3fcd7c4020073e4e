-- ===== src/Lua/Convert/Looped.antt =====
-- What the loop of do_convert in ltlua.cpp leaves of a table, pair by pair.
use lighttable.Prelude.{ℕ, suc, ◌+◌, ◌^◌, ◌≡◌, ◌≢◌, refl, ap, ◌<◌, none, arith}
use lighttable.Struct.{Key, Value}
use lighttable.Lmap.{new_lmap}
use lighttable.State.{Ptr}
use lighttable.Table.{new_table}
use lighttable.World.{World, entering}
use lighttable.World.Life.{Heap}
use lighttable.World.Freed.{put_table, put_table_at}
use lighttable.World.Supply.{Supply}
use lighttable.Dictionary.{Content, Contents, insert}
use lighttable.Dictionary.Refines.{new_table-Represents}
use lighttable.Lua.Convert.Tree.{
  LuaValue, Pairs, content, table, nil, pair, Lacks, StandsFor, IsContent, IsFilled, IsConverted,
}
use lighttable.Lua.Convert.Kept.{
  Keeps, Keeps-trans, Keeps-narrow, Absent, Absent-Keeps, IsContent-Keeps, IsFilled-Keeps,
}
use lighttable.Lua.Convert.Step.{Stepped}

-- How many tables, or strings, are allocated at most.
unfoldable mutual
  pub total : LuaValue → ℕ
  total (content c) = 1
  total (table ps) = 2 + total_pairs ps

  pub total_pairs : Pairs → ℕ
  total_pairs nil = 0
  total_pairs (pair k v ps) = total v + total_pairs ps

-- No pair has a key with a content.
abbrev pub AllAbsent : Contents → Pairs → Type 0
AllAbsent f nil = Unit {0}
AllAbsent f (pair k v ps) = (f k ≡ none) × AllAbsent f ps

pub AllAbsent-insert :
    (f : Contents) (k : Key) (c : Content) (ps : Pairs)
    → AllAbsent f ps
    → Lacks k ps
    → AllAbsent (insert k c f) ps
AllAbsent-insert f k c nil absent lacks = tt
AllAbsent-insert f k c (pair q v ps) (e, absent) (ne, lacks) =
    (rw (ne, e) refl, AllAbsent-insert f k c ps absent lacks)

pub AllAbsent-nothing : (ps : Pairs) → AllAbsent (λ q. none) ps
AllAbsent-nothing nil = tt
AllAbsent-nothing (pair k v ps) = (refl, AllAbsent-nothing ps)

-- What the loop over the pairs leaves.
pub record Looped (Room : ℕ → World → Type 0) (w : World) (p : Ptr) (f : Contents) (ps : Pairs)
    (n : ℕ) (w' : World) : Type 0 where
  pub contents : Contents
  pub stands : StandsFor w' p contents
  pub filled : IsFilled (Absent w) w' f ps contents
  pub room : Room n w'
  pub keeps : Keeps (λ q. q ≢ p) w w'

-- What the conversion of a table leaves.
pub record Made (Room : ℕ → World → Type 0) (w : World) (q : Ptr) (ps : Pairs) (n : ℕ) (w' : World)
    : Type 0 where
  pub converted : IsConverted (Absent w) w' q ps
  pub room : Room n w'
  pub keeps : Keeps (λ p. Unit {0}) w w'

module _ (heap : Heap) (Room : ℕ → World → Type 0) (supply : Supply heap Room) (tmp : Value) where
  abbrev pub created : World → World
  created w = put_table w (heap.new_table_at w) (new_table heap.first_size)

  pub created-StandsFor :
      (w : World)
      → 0 < heap.first_size
      → heap.first_size < 2 ^ 31
      → (st : StandsFor (created w) (heap.new_table_at w) (λ q. none)) × (st.this.map.size
          ≡ heap.first_size)
  unfolding new_table new_lmap
  created-StandsFor w pos small = (
    record {
      this = new_table heap.first_size;
      there = put_table_at w (heap.new_table_at w) (new_table heap.first_size);
      means =
          new_table-Represents (entering (created w) (new_table heap.first_size)) heap.first_size
            pos small refl;
      last = refl;
    },
    omega arith,
  )

  -- From the loop over the pairs of the new table.
  pub Looped-Made :
      (w w' : World) (ps : Pairs) (n m : ℕ)
      → Room (suc m) w
      → Looped Room (created w) (heap.new_table_at w) (λ q. none) ps n w'
      → Made Room w (heap.new_table_at w) ps n w'
  Looped-Made w w' ps n m room loop =
      let q = heap.new_table_at w in
      let fresh = supply.table m w room in
      let back = λ (x : Ptr) (e : Absent (created w) x). let b : Absent w x = ground arith in b in
      record {
        converted = (
          fresh,
          loop.contents,
          loop.stands,
          IsFilled-Keeps (Absent (created w)) (Absent w) back w' w'
              (record { tables = λ p t old e. e; lstrings = λ p l e. e; slots = λ a t e. e })
              (λ x. none) ps loop.contents loop.filled,
        );
        room = loop.room;
        keeps = record {
          tables = λ p t old e.
              let ne : p ≢ q = λ z. cc (ap w.memory.tables z, fresh, e) in
              loop.keeps.tables p t ne (ground arith);
          lstrings = λ p l e. loop.keeps.lstrings p l e;
          slots = λ a t e. loop.keeps.slots a t e;
        };
      }

  -- A pair, whose content stands at `w₁`, before the pairs that follow.
  pub Looped-pair :
      (w w₁ w₂ w' : World) (p : Ptr) (f : Contents) (k : Key) (v : LuaValue) (c : Content)
      (ps : Pairs) (n m j : ℕ)
      → StandsFor w p f
      → Keeps (λ q. q ≢ p) w w₁
      → IsContent (Absent w) w₁ v c
      → Stepped Room w₁ p (insert k c f) m j w₂
      → Looped Room w₂ p (insert k c f) ps n w'
      → Looped Room w p f (pair k v ps) n w'
  unfolding IsContent
  Looped-pair w w₁ w₂ w' p f k v c ps n m j st before is stepped loop =
      let apart = λ (x : Ptr) (e : Absent w x).
        let b : x ≢ p = λ z. cc (ap w.memory.tables z, st.there, e) in b in
      let after : Keeps (λ q. q ≢ p) w₁ w' = Keeps-trans stepped.keeps loop.keeps in
      let up : Keeps (λ q. q ≢ p) w w₂ = Keeps-trans before stepped.keeps in
      record {
        contents = loop.contents;
        stands = loop.stands;
        filled = (
          c,
          IsContent-Keeps (Absent w) (Absent w) (λ x e. e) w₁ w' (Keeps-narrow apart after) v c is,
          IsFilled-Keeps (Absent w₂) (Absent w)
              (λ x e. Absent-Keeps w w₂ p stepped.stands.this x stepped.stands.there up e) w' w'
              (record { tables = λ q t old e. e; lstrings = λ q l e. e; slots = λ a t e. e })
              (insert k c f) ps loop.contents loop.filled,
        );
        room = loop.room;
        keeps = Keeps-trans before after;
      }
