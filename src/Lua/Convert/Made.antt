-- ===== src/Lua/Convert/Made.antt =====
-- do_convert of ltlua.cpp makes tables for the dictionaries of a Lua table.
use lighttable.Prelude.{ℕ, zero, suc, ◌+◌, ◌*◌, ◌^◌, ◌≡◌, ◌≢◌, refl, sym, ◌≤◌, ◌<◌, none, arith}
use mathlib.Core.Path.{subst}
use native.Mathlib.Nat.{mul-le-mul_left, one-le-pow}
use lighttable.Struct.{Key, Value}
use lighttable.State.{Ptr, Table}
use lighttable.Table.Read.{ud}
use lighttable.World.{World}
use lighttable.World.Life.{Heap, create_table}
use lighttable.World.Supply.{Supply}
use lighttable.Dictionary.{Content, plain, Contents, stored, insert}
use lighttable.Lua.{returns}
use lighttable.Lua.Tables.{LuaCalls}
use lighttable.Lua.Convert.{convert_pairs, do_convert, convert}
use lighttable.Lua.Convert.Tree.{
  Pairs, content, table, nil, pair, count, depth, depth_pairs, HasRoom, AreConvertible, Gives,
  StandsFor, IsContent, shown_pair,
}
use lighttable.Lua.Convert.Kept.{Keeps, Keeps-narrow, StandsFor-Keeps}
use lighttable.Lua.Convert.Step.{convert_pair-content, convert_pair-table}
use lighttable.Lua.Convert.Looped.{
  total, total_pairs, AllAbsent, AllAbsent-insert, AllAbsent-nothing, Looped, Made, created,
  created-StandsFor, Looped-Made, Looped-pair,
}

module _ (heap : Heap) (Room : ℕ → World → Type 0) (supply : Supply heap Room) (tmp : Value) where
  module _ {L : Type 0} (calls : LuaCalls L) (rounds : ℕ) (pos : 0 < heap.first_size)
      (fits : heap.first_size < 2 ^ 31) where
    -- The loop over the pairs, at the calls of do_convert that are `d` deep.
    abbrev Loop : ℕ → ℕ → Pairs → Type 0
    Loop d r ps =
        (n : ℕ) (w : World) (p : Ptr) (f : Contents) (l l' : L) (st : StandsFor w p f)
        → st.this.map.size * 2 ^ count ps ≤ 2 ^ 30
        → Room (total_pairs ps + n) w
        → AllAbsent f ps
        → AreConvertible rounds heap.first_size ps
        → Gives calls l ps l'
        → (w' : World) × (convert_pairs calls heap tmp r (do_convert calls heap tmp d rounds) p l w
            ≡ returns tt l' w')
          × Looped Room w p f ps n w'

    -- What do_convert does at a stack with these pairs.
    abbrev Makes : ℕ → Pairs → Type 0
    Makes d ps =
        (n : ℕ) (w : World) (l l' : L)
        → Room (suc (total_pairs ps + n)) w
        → HasRoom rounds heap.first_size ps
        → AreConvertible rounds heap.first_size ps
        → Gives calls (calls.api.lua_pushnil l) ps l'
        → (q : Ptr) × (w' : World) × (do_convert calls heap tmp d rounds l w ≡ returns q l' w')
          × Made Room w q ps n w'

    Loop-Makes : (d : ℕ) (ps : Pairs) → Loop d rounds ps → Makes (suc d) ps
    unfolding do_convert create_table
    Loop-Makes d ps loop n w l l' room (few, small) convertible gives =
        let q = heap.new_table_at w in
        let (st, size) = created-StandsFor heap Room supply tmp w pos fits in
        let less =
          supply.less (total_pairs ps + n) w (created heap Room supply tmp w) room (record {
            tables = λ x ne e. ground arith;
            lstrings = λ x ne e. e;
            slots = λ x ne e. e;
          }) in
        let (w', run, looped) =
          loop n (created heap Room supply tmp w) q (λ x. none) (calls.api.lua_pushnil l) l' st
            (rw size small) less (AllAbsent-nothing ps) convertible gives in
        (
          q,
          w',
          rw run refl,
          Looped-Made heap Room supply tmp w w' ps n (total_pairs ps + n) room looped,
        )

    Loop-nil : (d r : ℕ) → Loop d (suc r) nil
    unfolding convert_pairs Gives IsContent total
    Loop-nil d r n w p f l l' st small room absent convertible gives = (
      w,
      rw gives refl,
      record {
        contents = f;
        stands = st;
        filled = λ q. refl;
        room = subst (λ m. Room m w) (omega arith) room;
        keeps = record { tables = λ q t old e. e; lstrings = λ q t e. e; slots = λ a t e. e };
      },
    )

    Loop-content :
        (d r : ℕ) (k : Key) (c : Content) (ps : Pairs)
        → Loop d r ps
        → Loop d (suc r) (pair k (content c) ps)
    unfolding convert_pairs Gives AreConvertible IsContent total
    Loop-content d r k c ps rest n w p f l l' st small room (new, absent) (key, lacks, fits, more)
          (l₁, l₂, next, has, (shows, popped), gives) =
        let again = do_convert calls heap tmp d rounds in
        let j = total_pairs ps + n in
        let room₁ : Room (suc j) w = subst (λ m. Room m w) (omega arith) room in
        let (w₁, run, stepped) =
          convert_pair-content heap Room supply tmp calls again w p f k c j (count ps) l₁ l₂ st
            small room₁ new key fits has shows popped in
        let (w', run', looped) =
          rest n w₁ p (insert k (stored c) f) l₂ l' stepped.stands stepped.small stepped.room
            (AllAbsent-insert f k (stored c) ps absent lacks) more gives in
        (
          w',
          rw (next, run, run') refl,
          Looped-pair heap Room supply tmp w w w₁ w' p f k (content c) (stored c) ps n j (count ps)
              st (record { tables = λ q t old e. e; lstrings = λ q t e. e; slots = λ a t e. e })
              refl stepped looped,
        )

    Loop-table :
        (d r : ℕ) (k : Key) (sub ps : Pairs)
        → Makes d sub
        → Loop d r ps
        → Loop d (suc r) (pair k (table sub) ps)
    unfolding convert_pairs Gives AreConvertible IsContent total
    Loop-table d r k sub ps makes rest n w p f l l' st small room (new, absent)
          (key, lacks, (has_room, below), more)
          (l₁, l₂, next, has, (type, l₃, gives_sub, popped), gives) =
        let again = do_convert calls heap tmp d rounds in
        let j = total_pairs ps + n in
        let room₁ : Room (suc (total_pairs sub + suc j)) w =
          subst (λ m. Room m w) (omega arith) room in
        let (q, w₁, run_sub, made) =
          makes (suc j) w (shown_pair calls (shown_pair calls l₁)) l₃ room₁ has_room below
            gives_sub in
        let kept : Keeps (λ x. x ≢ p) w w₁ = Keeps-narrow (λ x ne. tt) made.keeps in
        let (unused, g, stands, filled) = made.converted in
        let (st₁, same) =
          StandsFor-Keeps (λ x. Unit {0}) (λ x. Unit {0}) (λ x u. tt) w w₁ made.keeps p f tt st in
        let small₁ =
          subst (λ (t : Table). t.map.size * 2 ^ suc (count ps) ≤ 2 ^ 30) (sym same) small in
        let (w₂, run, stepped) =
          convert_pair-table heap Room supply tmp calls again w w₁ p q f k j (count ps) l₁ l₃ l₂ st
            st₁ small₁ made.room new key has type run_sub popped in
        let (w', run', looped) =
          rest n w₂ p (insert k (plain ud q) f) l₂ l' stepped.stands stepped.small stepped.room
            (AllAbsent-insert f k (plain ud q) ps absent lacks) more gives in
        (
          w',
          rw (next, run, run') refl,
          Looped-pair heap Room supply tmp w w₁ w₂ w' p f k (table sub) (plain ud q) ps n j
              (count ps) st kept (q, refl, unused, g, stands, filled) stepped looped,
        )

    -- The loop over any pairs, on enough calls and rounds.
    Loop-all :
        (d r : ℕ) (ps : Pairs)
        → count ps < r
        → depth_pairs ps ≤ d
        → AreConvertible rounds heap.first_size ps
        → Loop d r ps
    unfolding depth AreConvertible
    Loop-all d zero ps few deep convertible = absurd (omega arith)
    Loop-all d (suc r) nil few deep convertible = Loop-nil d r
    Loop-all d (suc r) (pair k (content c) ps) few deep (key, lacks, fits, more) =
        Loop-content d r k c ps (Loop-all d r ps (omega arith) (omega arith) more)
    Loop-all zero (suc r) (pair k (table sub) ps) few deep convertible = absurd (omega arith)
    Loop-all (suc d) (suc r) (pair k (table sub) ps) few deep (key, lacks, (room, below), more) =
        Loop-table (suc d) r k sub ps
          (Loop-Makes d sub (Loop-all d rounds sub room.0 (omega arith) below))
          (Loop-all (suc d) r ps (omega arith) (omega arith) more)

-- Where lua_next gives the pairs of a Lua table whose values are numbers, booleans, texts, light user
-- data and such tables, each table with fewer pairs than there are rounds, with different keys that
-- an int can hold and with at most 2^30 slots once the first size, which is positive, is doubled for
-- each pair, each text with a length that an int can hold, and where new and malloc return unused
-- addresses while there is room and there is enough of it: _convert, on a stack deeper than the tables
-- lie in each other, pushes the address of a new table and returns 1. That table stands for the
-- dictionary of the pairs, where a number, boolean, text or user data is held as the setters store it
-- and a table as the address of a new table that stands for its dictionary in the same way; each of
-- them has one reference. All tables and strings that there were stay as they were, and there is
-- room left for what was not needed.
pub convert-IsConverted :
    {L : Type 0} (calls : LuaCalls L) (heap : Heap) (Room : ℕ → World → Type 0)
    (supply : Supply heap Room) (tmp : Value) (depth rounds n : ℕ) (ps : Pairs) (w : World)
    (l l' : L)
    → 0 < heap.first_size
    → Room (suc (total_pairs ps + n)) w
    → HasRoom rounds heap.first_size ps
    → AreConvertible rounds heap.first_size ps
    → Gives calls (calls.api.lua_pushnil l) ps l'
    → depth_pairs ps < depth
    → (q : Ptr) × (w' : World) × (convert calls heap tmp depth rounds l w
        ≡ returns 1 (calls.api.lua_pushlightuserdata q l') w')
      × Made Room w q ps n w'
unfolding convert
convert-IsConverted calls heap Room supply tmp zero rounds n ps w l l' pos room few is gives deep =
    absurd (omega arith)
convert-IsConverted calls heap Room supply tmp (suc d) rounds n ps w l l' pos room few is gives
      deep =
    let one : 1 ≤ 2 ^ count ps = one-le-pow (count ps) 2 (omega arith) in
    let least : heap.first_size * 1 ≤ heap.first_size * 2 ^ count ps =
      mul-le-mul_left heap.first_size one in
    let small : heap.first_size < 2 ^ 31 = omega (arith, least, few.1) in
    let loop =
      Loop-all heap Room supply tmp calls rounds pos small d rounds ps few.0 (omega arith) is in
    let (q, w', run, made) =
      Loop-Makes heap Room supply tmp calls rounds pos small d ps loop n w l l' room few is gives in
    (q, w', rw run refl, made)
