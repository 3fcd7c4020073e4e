-- ===== src/Lua/Convert/Step.antt =====
-- do_convert of ltlua.cpp at one pair of a Lua table.
use lighttable.Prelude.{
  ℕ, suc, ◌*◌, ◌^◌, ◌≡◌, ◌≢◌, refl, ap, ◌∙◌, ◌≤◌, false, none, some, ◌==◌, arith,
}
use lighttable.Prelude.Word.{doubled, halved}
use lighttable.Struct.{Key, Value}
use lighttable.Lmap.Stored.{IsKey}
use lighttable.State.{Ptr, State, Table, ok}
use lighttable.Table.Read.{number, boolean, ud}
use lighttable.World.{World, entering, leaving}
use lighttable.World.Life.{Heap}
use lighttable.World.Reading.{SameState-refl, leaving-same}
use lighttable.World.Supply.{Supply}
use lighttable.Dictionary.{Content, plain, text, Contents, set_content, stored, insert, Fits}
use lighttable.Dictionary.Extends.{set_content-Extends}
use lighttable.Lua.{returns, Binding, get_key, set_value}
use lighttable.Lua.Tables.{LuaCalls, lua_ttable, from_top, within}
use lighttable.Lua.Contents.{HasKey, HasContent, get_key-HasKey, set_value-set_content}
use lighttable.Lua.Convert.{convert_pair}
use lighttable.Lua.Convert.Tree.{StandsFor, shown_pair}
use lighttable.Lua.Convert.Kept.{Keeps}

-- The table at `p` after a pair, with room for `n` more pairs to be allocated and for `m` doublings.
pub record Stepped (Room : ℕ → World → Type 0) (w : World) (p : Ptr) (f : Contents) (n m : ℕ)
    (w' : World) : Type 0 where
  pub stands : StandsFor w' p f
  pub small : stands.this.map.size * 2 ^ m ≤ 2 ^ 30
  pub room : Room n w'
  pub keeps : Keeps (λ q. q ≢ p) w w'

module _ (heap : Heap) (Room : ℕ → World → Type 0) (supply : Supply heap Room) (tmp : Value) where
  -- A setter at a key without content.
  set_content-Stepped :
      (w : World) (p : Ptr) (f : Contents) (k : Key) (c : Content) (n m : ℕ)
      → (st : StandsFor w p f) → st.this.map.size * 2 ^ suc m ≤ 2 ^ 30
      → Room (suc n) w
      → f k ≡ none
      → IsKey k
      → Fits c
      → (s' : State) × (set_content c k
            (heap.malloc_lstring w)
            (heap.malloc_slot w)
            tmp
            (entering w st.this)
          ≡ ok 0 s')
        × Stepped Room w p (insert k (stored c) f) n m (leaving w p s')
  set_content-Stepped w p f k c n m st small room absent key fits =
      let s = entering w st.this in
      let size = halved st.this.map.size m st.means.quiet.map.pos small in
      let (s', run, means, is) =
        set_content-Extends s f c k (heap.malloc_lstring w) (heap.malloc_slot w) tmp st.means key
          size absent fits (supply.lstring n w room) (supply.slot n w room) in
      (
        s',
        run,
        record {
          stands = record {
            this = s'.table;
            there = ground arith;
            means = means;
            last = is.ref ∙ st.last;
          };
          small = doubled s'.table.map.size st.this.map.size m is.size small;
          room = supply.less n w (leaving w p s') room (record {
            tables = λ q ne e. ground (arith, st.there);
            lstrings = is.no_lstrings;
            slots = is.no_slots;
          });
          keeps = record {
            tables = λ q t ne e. ground arith;
            lstrings = is.lstrings;
            slots = is.slots;
          };
        },
      )

  module _ {L : Type 0} (calls : LuaCalls L) where
    within-reads :
        {A : Type 0} (w : World) (p : Ptr) (t : Table) (m : Binding State L A) (a : A) (l : L)
        → w.memory.tables p ≡ some t
        → m l (entering w t) ≡ returns a l (entering w t)
        → within p m l w ≡ returns a l w
    within-reads w p t m a l there run =
        rw (there, run)
          (ap (λ w'. returns a l w')
            (leaving-same w p t there (entering w t) (SameState-refl (entering w t))))

    within-changes :
        {A : Type 0} (w : World) (p : Ptr) (t : Table) (m : Binding State L A) (a : A) (l : L)
        (s' : State)
        → w.memory.tables p ≡ some t
        → m l (entering w t) ≡ returns a l s'
        → within p m l w ≡ returns a l (leaving w p s')
    within-changes w p t m a l s' there run = rw (there, run) refl

    no-table :
        (l : L) (c : Content)
        → HasContent calls.api l (from_top 2) c
        → (calls.api.lua_type l (from_top 2) == lua_ttable) ≡ false
    no-table l (plain number x) (type, value) = rw type refl
    no-table l (plain boolean x) (type, value) = rw type refl
    no-table l (plain ud x) (type, value) = rw type refl
    no-table l (text b) (type, value) = rw type refl

    -- The key of the pair is read.
    key-reads :
        (w : World) (p : Ptr) (f : Contents) (l : L) (k : Key)
        → (st : StandsFor w p f) → HasKey calls.api l (from_top 1) k
        → within p (get_key calls.api (from_top 1)) l w ≡ returns k l w
    key-reads w p f l k st has =
        within-reads w p st.this (get_key calls.api (from_top 1)) k l st.there
          (get_key-HasKey calls.api l (from_top 1) (entering w st.this) k has)

    pub convert_pair-content :
        (again : Binding World L Ptr) (w : World) (p : Ptr) (f : Contents) (k : Key) (c : Content)
        (n m : ℕ) (l l' : L)
        → (st : StandsFor w p f) → st.this.map.size * 2 ^ suc m ≤ 2 ^ 30
        → Room (suc n) w
        → f k ≡ none
        → IsKey k
        → Fits c
        → HasKey calls.api (shown_pair calls l) (from_top 1) k
        → HasContent calls.api (shown_pair calls l) (from_top 2) c
        → calls.lua_pop 2 (shown_pair calls l) ≡ l'
        → (w' : World) × (convert_pair calls heap tmp again p l w ≡ returns tt l' w')
          × Stepped Room w p (insert k (stored c) f) n m w'
    unfolding convert_pair
    convert_pair-content again w p f k c n m l l' st small room absent key fits has content popped =
        let l₁ = shown_pair calls l in
        let (s', run, stepped) = set_content-Stepped w p f k c n m st small room absent key fits in
        let changed =
          within-changes w p st.this
            (set_value calls.api k (from_top 2) (heap.malloc_lstring w) (heap.malloc_slot w) tmp) tt
            l₁ s' st.there
            (set_value-set_content calls.api l₁ (from_top 2) (entering w st.this) s' k c
              (heap.malloc_lstring w) (heap.malloc_slot w) tmp content run) in
        (
          leaving w p s',
          rw (no-table l₁ c content, key-reads w p f l₁ k st has, changed, popped) refl,
          stepped,
        )

    -- Where the conversion of the table in the pair comes to a table at `q`.
    pub convert_pair-table :
        (again : Binding World L Ptr) (w w₁ : World) (p q : Ptr) (f : Contents) (k : Key) (n m : ℕ)
        (l l₂ l' : L)
        → (st : StandsFor w p f) → (st₁ : StandsFor w₁ p f) → st₁.this.map.size * 2 ^ suc m ≤ 2 ^ 30
        → Room (suc n) w₁
        → f k ≡ none
        → IsKey k
        → HasKey calls.api (shown_pair calls l) (from_top 1) k
        → calls.api.lua_type (shown_pair calls l) (from_top 2) ≡ lua_ttable
        → again (shown_pair calls (shown_pair calls l)) w ≡ returns q l₂ w₁
        → calls.lua_pop 3 l₂ ≡ l'
        → (w' : World) × (convert_pair calls heap tmp again p l w ≡ returns tt l' w')
          × Stepped Room w₁ p (insert k (plain ud q) f) n m w'
    unfolding convert_pair
    convert_pair-table again w w₁ p q f k n m l l₂ l' st st₁ small room absent key has type sub
          popped =
        let l₁ = shown_pair calls l in
        let (s', run, stepped) =
          set_content-Stepped w₁ p f k (plain ud q) n m st₁ small room absent key tt in
        (
          leaving w₁ p s',
          rw (type, key-reads w p f l₁ k st has, sub, st₁.there, run, popped) refl,
          stepped,
        )
