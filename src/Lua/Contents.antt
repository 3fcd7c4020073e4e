-- ===== src/Lua/Contents.antt =====
-- __newindex and __index of ltlua.cpp on a table that stands for a dictionary: _set and _get, at
-- names and numbers, and with texts.
use lighttable.Prelude.{ℕ, ◌+◌, ◌-◌, ◌^◌, ◌≡◌, refl, ◌<◌, Option, none, some, ap, ◌∙◌, arith}
use mathlib.Core.Path.{subst}
use lighttable.Struct.{Key, name, index, Value}
use lighttable.State.{State, ok, Ptr}
use lighttable.Lmap.Stored.{IsKey}
use lighttable.Table.Valid.{IsTable, reads}
use lighttable.Table.Read.{number, boolean, ud, found, get_type-found}
use lighttable.Strings.Owned.{SameState, value_string-ok}
use lighttable.Dictionary.{
  Content, plain, text, Contents, set_content, stored, insert, Suits, Fits, Means, Represents,
}
use lighttable.Dictionary.Refines.{set_content-Represents}
use lighttable.Lua.{
  lua_tnumber, LuaApi, returns, give, ended, ◌>>◌, get_value, get, get_key, set_by_type, set_value,
  set, lua_tstring,
}
use lighttable.Lua.Index.{lua_tag, lua_value, pushed, HasIndex, get-before, get_value-typed}

-- The entry that __index reads for a key: of a number the one before.
abbrev pub looked_up : Key → Key
looked_up (name b) = name b
looked_up (index n) = index (n - 1)

-- A key that __index takes: any name, or a positive number that an int can hold.
abbrev pub IsLookup : Key → Type 0
IsLookup (name b) = Unit {0}
IsLookup (index n) = (0 < n) × (n < 2 ^ 31)

same : (s : State) → SameState s s
same s = record { table = refl; lstrings = λ p. refl; slots = λ p. refl }

module _ {L : Type 0} (lua : LuaApi L) where
  -- At the index of the stack is the key.
  abbrev pub HasKey : L → ℕ → Key → Type 0
  HasKey l idx (name b) = (lua.lua_type l idx ≡ lua_tstring) × (lua.lua_tolstring l idx ≡ b)
  HasKey l idx (index n) = (lua.lua_type l idx ≡ lua_tnumber) × (lua.lua_tointeger l idx ≡ n)

  -- At the index of the stack is the content.
  abbrev pub HasContent : L → ℕ → Content → Type 0
  HasContent l idx (plain kind w) =
      (lua.lua_type l idx ≡ lua_tag kind) × (lua_value lua kind l idx ≡ w)
  HasContent l idx (text b) = (lua.lua_type l idx ≡ lua_tstring) × (lua.lua_tolstring l idx ≡ b)

  -- What is pushed for a content.
  abbrev pub push_content : Option Content → L → L
  push_content none = lua.lua_pushnil
  push_content (some (plain kind w)) = pushed lua kind w
  push_content (some (text b)) = lua.lua_pushlstring b

  pub get_key-HasKey :
      (l : L) (idx : ℕ) (s : State) (k : Key) → HasKey l idx k → get_key lua idx l s ≡ returns k l s
  unfolding get_key
  get_key-HasKey l idx s (name b) (type, value) = rw (type, value) refl
  get_key-HasKey l idx s (index n) (type, value) = rw (type, value) refl

  set_by_type-set_content :
      (l : L) (idx : ℕ) (s : State) (k : Key) (c : Content) (ls ns : Ptr) (tmp : Value)
      → HasContent l idx c
      → set_by_type lua k idx ls ns tmp l s ≡ ended (set_content c k ls ns tmp s) l
  unfolding set_by_type
  set_by_type-set_content l idx s k (plain number w) ls ns tmp (type, value) = rw (type, value) refl
  set_by_type-set_content l idx s k (plain boolean w) ls ns tmp (type, value) =
      rw (type, value) refl
  set_by_type-set_content l idx s k (plain ud w) ls ns tmp (type, value) = rw (type, value) refl
  set_by_type-set_content l idx s k (text b) ls ns tmp (type, value) = rw (type, value) refl

  pub set_value-set_content :
      (l : L) (idx : ℕ) (s s' : State) (k : Key) (c : Content) (ls ns : Ptr) (tmp : Value)
      → HasContent l idx c
      → set_content c k ls ns tmp s ≡ ok 0 s'
      → set_value lua k idx ls ns tmp l s ≡ returns tt l s'
  unfolding set_value
  set_value-set_content l idx s s' k c ls ns tmp content run =
      rw (set_by_type-set_content l idx s k c ls ns tmp content, run) refl

  set-set_content :
      (l : L) (s s' : State) (k : Key) (c : Content) (ls ns : Ptr) (tmp : Value)
      → HasKey l 2 k
      → HasContent l 3 c
      → set_content c k ls ns tmp s ≡ ok 0 s'
      → set lua ls ns tmp l s ≡ returns 0 l s'
  unfolding set
  set-set_content l s s' k c ls ns tmp key content run =
      rw (get_key-HasKey l 2 s k key, set_value-set_content l 3 s s' k c ls ns tmp content run) refl

  get-index :
      (l : L) (s : State) (n : ℕ) (tmp : Value) (unset : ℕ × ℕ)
      → IsTable s.table
      → HasIndex lua l n
      → 0 < n
      → n < 2 ^ 31
      → get lua tmp unset l s
        ≡ (let r = found (reads s (index (n - 1))) tmp in (get_value lua r.type r.v >> give 1) l s)
  get-index l s n tmp unset quiet has pos small =
      let e : n ≡ n - 1 + 1 = omega arith in
      get-before lua l s (n - 1) tmp unset quiet (subst (HasIndex lua l) e has) (omega arith)

  get-found :
      (l : L) (s : State) (q : Key) (tmp : Value) (unset : ℕ × ℕ)
      → IsTable s.table
      → HasKey l 2 q
      → IsLookup q
      → get lua tmp unset l s
        ≡ (let r = found (reads s (looked_up q)) tmp in (get_value lua r.type r.v >> give 1) l s)
  unfolding get
  get-found l s (name b) tmp unset quiet (type, value) is =
      rw (type, value, get_type-found s quiet (name b) tmp) refl
  get-found l s (index n) tmp unset quiet (type, value) (pos, small) =
      get-index l s n tmp unset quiet (record { type = type; value = value }) pos small

  -- An entry is pushed as the content that it stands for.
  get_value-content :
      (l : L) (s : State) (tmp : Value) (c : Option Content) (o : Option Value)
      → Means s c o
      → (s' : State) × (get_value lua (found o tmp).type (found o tmp).v l s
          ≡ returns tt (push_content c l) s')
        × SameState s s'
  unfolding get_value
  get_value-content l s tmp none none m = (s, refl, same s)
  get_value-content l s tmp none (some v) m = elim m [ ]
  get_value-content l s tmp (some (plain kind w)) none m = elim m [ ]
  get_value-content l s tmp (some (text b)) none m = elim m [ ]
  get_value-content l s tmp (some (plain kind w)) (some v) (type, value) = (
    s,
    get_value-typed lua kind v.type v.v l s type
        ∙ ap (λ x. returns tt (pushed lua kind x l) s) value,
    same s,
  )
  get_value-content l s tmp (some (text b)) (some v) (type, h) =
      let (s', run, kept) = value_string-ok s v.v h.slot h.content h.owns in
      (s', rw (type, run, h.reads_text) refl, kept)

  get-content :
      (l : L) (s : State) (f : Contents) (q : Key) (tmp : Value) (unset : ℕ × ℕ)
      → Represents s f
      → HasKey l 2 q
      → IsLookup q
      → (s' : State) × (get lua tmp unset l s ≡ returns 1 (push_content (f (looked_up q)) l) s')
        × SameState s s'
  get-content l s f q tmp unset r key is =
      let (s', run, kept) =
        get_value-content l s tmp (f (looked_up q)) (reads s (looked_up q))
          (r.means (looked_up q)) in
      (s', rw (get-found l s q tmp unset r.quiet key is, run) refl, kept)

  -- On a table that no method works on, with fewer than 2^30 slots, that stands for a dictionary: the
  -- assignment of a number, boolean, text or light user data under a name or number that an int can
  -- hold, where there is no content or one of the same kind, with unused addresses for a new lstring
  -- and slot and a text whose length an int can hold, returns without results, and the table then
  -- stands for the dictionary with the new content (of a boolean its 32 bits). Reading a name
  -- afterwards pushes its content, and reading a positive number that an int can hold pushes the
  -- content of the number before, or nil where there is none; the table and the strings stay as they
  -- were.
  pub set-get_content :
      (l l' : L) (s : State) (f : Contents) (k q : Key) (c : Content) (ls ns : Ptr)
      (tmp tmp' : Value) (unset : ℕ × ℕ)
      → HasKey l 2 k
      → HasContent l 3 c
      → HasKey l' 2 q
      → IsLookup q
      → Represents s f
      → IsKey k
      → s.table.map.size < 2 ^ 30
      → Suits (f k) c
      → Fits c
      → s.lstrings ls ≡ none
      → s.slots ns ≡ none
      → (s' s'' : State) × (set lua ls ns tmp l s ≡ returns 0 l s')
        × Represents s' (insert k (stored c) f)
        × (get lua tmp' unset l' s'
            ≡ returns 1 (push_content (insert k (stored c) f (looked_up q)) l') s'')
        × SameState s' s''
  set-get_content l l' s f k q c ls ns tmp tmp' unset key content key' is r valid room suits fits
        fresh_ls fresh_ns =
      let (s', run, r') =
        set_content-Represents s f c k ls ns tmp r valid room suits fits fresh_ls fresh_ns in
      let (s'', read, kept) = get-content l' s' (insert k (stored c) f) q tmp' unset r' key' is in
      (s', s'', set-set_content l s s' k c ls ns tmp key content run, r', read, kept)
