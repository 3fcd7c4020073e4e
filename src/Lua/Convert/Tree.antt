-- ===== src/Lua/Convert/Tree.antt =====
-- What lua_next gives for a Lua table that do_convert of ltlua.cpp converts, and what do_convert is
-- to make of it.
use lighttable.Prelude.{ℕ, suc, ◌*◌, ◌^◌, ◌≡◌, ◌≤◌, ◌<◌, true, false, none, some}
use lighttable.Struct.{Key}
use lighttable.Lmap.Stored.{IsKey, same_key}
use lighttable.State.{Ptr, Table}
use lighttable.Table.Read.{ud}
use lighttable.World.{World, entering}
use lighttable.Dictionary.{Content, plain, Contents, stored, insert, Fits, Represents}
use lighttable.Lua.Tables.{LuaCalls, lua_ttable, from_top}
use lighttable.Lua.Contents.{HasKey, HasContent}
use Prim.Native.Nat.{max}

-- A Lua table is the list of its pairs, in the order of lua_next.
mutual
  pub data LuaValue : Type 0 where
    content : Content → LuaValue
    table : Pairs → LuaValue

  pub data Pairs : Type 0 where
    nil : Pairs
    pair : Key → LuaValue → Pairs → Pairs

abbrev pub count : Pairs → ℕ
count nil = 0
count (pair k v ps) = suc (count ps)

-- How deep tables lie in each other.
unfoldable mutual
  pub depth : LuaValue → ℕ
  depth (content c) = 0
  depth (table ps) = suc (depth_pairs ps)

  pub depth_pairs : Pairs → ℕ
  depth_pairs nil = 0
  depth_pairs (pair k v ps) = max (depth v) (depth_pairs ps)

-- No pair has the key.
abbrev pub Lacks : Key → Pairs → Type 0
Lacks k nil = Unit {0}
Lacks k (pair q v ps) = (same_key q k ≡ false) × Lacks k ps

-- What the conversion can hold: each table has fewer pairs than there are rounds, and few enough that
-- a table of the first size, doubled for each pair, keeps at most 2^30 slots; the keys of a table
-- are different and ones that an int can hold, and so are the lengths of texts.
module _ (rounds first_size : ℕ) where
  abbrev pub HasRoom : Pairs → Type 0
  HasRoom ps = (count ps < rounds) × (first_size * 2 ^ count ps ≤ 2 ^ 30)

  unfoldable mutual
    pub IsConvertible : LuaValue → Type 0
    IsConvertible (content c) = Fits c
    IsConvertible (table ps) = HasRoom ps × AreConvertible ps

    pub AreConvertible : Pairs → Type 0
    AreConvertible nil = Unit
    AreConvertible (pair k v ps) = IsKey k × Lacks k ps × IsConvertible v × AreConvertible ps

module _ {L : Type 0} (calls : LuaCalls L) where
  -- The key with its copy, and the value in between, lie on the stack.
  abbrev pub shown_pair : L → L
  shown_pair = calls.lua_pushvalue (from_top 2)

  unfoldable mutual
    -- The value of a pair lies under the copy of its key. After what is done with it, and is popped, the
    -- stack is `l'`.
    pub Shows : L → LuaValue → L → Type 0
    Shows l (content c) l' = HasContent calls.api l (from_top 2) c × (calls.lua_pop 2 l ≡ l')
    Shows l (table ps) l' =
        (calls.api.lua_type l (from_top 2) ≡ lua_ttable)
        × (l₁ : L) × Gives (calls.api.lua_pushnil (shown_pair l)) ps l₁
        × (calls.lua_pop 3 l₁ ≡ l')

    -- From the stack `l`, with a table under a key at the top, `lua_next` gives these pairs; the stack is
    -- `l'` when there is none left.
    pub Gives : L → Pairs → L → Type 0
    Gives l nil l' = calls.lua_next (from_top 2) l ≡ (false, l')
    Gives l (pair k v ps) l' =
        (l₁ : L) × (l₂ : L) × (calls.lua_next (from_top 2) l ≡ (true, l₁))
        × HasKey calls.api (shown_pair l₁) (from_top 1) k
        × Shows (shown_pair l₁) v l₂
        × Gives l₂ ps l'

-- At the address stands a table with one reference, for the dictionary.
pub record StandsFor (w : World) (p : Ptr) (f : Contents) : Type 0 where
  pub this : Table
  pub there : w.memory.tables p ≡ some this
  pub means : Represents (entering w this) f
  pub last : this.ref ≡ 1

-- The tables of a conversion are at new addresses, which `New` tells.
module _ (New : Ptr → Type 0) (w : World) where
  unfoldable mutual
    -- The content for a value of Lua; for a table, the address of a table, as user data.
    pub IsContent : LuaValue → Content → Type 0
    IsContent (content c') c = c ≡ stored c'
    IsContent (table ps) c =
        (p : Ptr) × (c ≡ plain ud p)
        × New p
        × (f : Contents) × StandsFor w p f
        × IsFilled (λ q. none) ps f

    -- The second dictionary is the first with the contents of the pairs inserted, in order.
    pub IsFilled : Contents → Pairs → Contents → Type 0
    IsFilled f nil g = (q : Key) → g q ≡ f q
    IsFilled f (pair k v ps) g = (c : Content) × IsContent v c × IsFilled (insert k c f) ps g

  -- At the address stands a table for the dictionary of the pairs.
  abbrev pub IsConverted : Ptr → Pairs → Type 0
  IsConverted p ps = New p × (f : Contents) × StandsFor w p f × IsFilled (λ q. none) ps f
