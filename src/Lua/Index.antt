-- ===== src/Lua/Index.antt =====
-- __index, __newindex and the step of ipairs in ltlua.cpp: _get, _set and _ipairsaux, at keys that
-- are numbers.
use lighttable.Prelude.{
  ℕ, ◌+◌, ◌-◌, ◌^◌, ◌≡◌, refl, ◌<◌, false, none, some, arith, ◌==◌, if◌then◌else◌, ap, ◌∙◌, inl,
  inr, ◌⊎◌, Bool-cases,
}
use lighttable.Prelude.Word.{to_int, to_size, to_size-to_int}
use lighttable.Struct.{Key, Value}
use lighttable.State.{State, ok, Ptr}
use lighttable.Lmap.Stored.{same_key}
use lighttable.Lmap.Chain.{type_of}
use lighttable.Table.Valid.{IsTable, reads}
use lighttable.Table.Read.{Kind, number, boolean, ud, tag, as_read, found, get_type-found}
use lighttable.Table.Insert.{Inserted}
use lighttable.Table.Write.{
  put, built, kept, outcome, put-Sets, outcome-fits, fitting, reads-Inserted,
}
use lighttable.Lua.{
  LuaApi, returns, raises, give, ended, ◌>>◌, get_value, get, get_key, not_positive, set_by_type,
  set_value, set, ipairsaux, lua_tnumber, lua_tboolean, lua_tlightuserdata,
}

abbrev pub lua_tag : Kind → ℕ
lua_tag number = lua_tnumber
lua_tag boolean = lua_tboolean
lua_tag ud = lua_tlightuserdata

module _ {L : Type 0} (lua : LuaApi L) where
  abbrev pub lua_value : Kind → L → ℕ → ℕ
  lua_value number = lua.lua_tonumber
  lua_value boolean = lua.lua_toboolean
  lua_value ud = lua.lua_touserdata

  abbrev pub pushed : Kind → ℕ → L → L
  pushed number = lua.lua_pushnumber
  pushed boolean = lua.lua_pushboolean
  pushed ud = lua.lua_pushlightuserdata

  -- The second argument is the number `n`.
  pub record HasIndex (l : L) (n : ℕ) : Type 0 where
    pub type : lua.lua_type l 2 ≡ lua_tnumber
    pub value : lua.lua_tointeger l 2 ≡ n

  -- The third argument is a value of the kind.
  pub record HasValue (l : L) (kind : Kind) (w : ℕ) : Type 0 where
    pub type : lua.lua_type l 3 ≡ lua_tag kind
    pub value : lua_value kind l 3 ≡ w

  -- The arguments of a step of `ipairs`.
  pub record HasStep (l : L) (i : ℕ) : Type 0 where
    pub type : lua.lua_type l 1 ≡ lua_tlightuserdata
    pub value : lua.lual_checkint l 2 ≡ some i

  -- What is pushed as a value of one of the three kinds is not nil.
  abbrev pub NotNil : Type 0
  NotNil = (kind : Kind) (v : ℕ) (l : L) → lua.lua_isnil (pushed kind v l) ≡ false

  pub get_value-typed :
      (kind : Kind) (type v : ℕ) (l : L) (s : State)
      → type ≡ tag kind
      → get_value lua type v l s ≡ returns tt (pushed kind (as_read kind v) l) s
  unfolding get_value
  get_value-typed number type v l s e = rw e refl
  get_value-typed boolean type v l s e = rw e refl
  get_value-typed ud type v l s e = rw e refl

  pub get_key-index :
      (l : L) (s : State) (n : ℕ) → HasIndex l n → get_key lua 2 l s ≡ returns (Key.index n) l s
  unfolding get_key
  get_key-index l s n args = rw (args.type, args.value) refl

  set_by_type-put :
      (l : L) (s : State) (k : Key) (kind : Kind) (w : ℕ) (ls ns : Ptr) (tmp : Value)
      → HasValue l kind w
      → set_by_type lua k 3 ls ns tmp l s ≡ ended (put kind k w tmp s) l
  unfolding set_by_type
  set_by_type-put l s k number w ls ns tmp is = rw (is.type, is.value) refl
  set_by_type-put l s k boolean w ls ns tmp is = rw (is.type, is.value) refl
  set_by_type-put l s k ud w ls ns tmp is = rw (is.type, is.value) refl

  -- `t[n + 1]` is read from the entry `n`.
  pub get-before :
      (l : L) (s : State) (n : ℕ) (tmp : Value) (unset : ℕ × ℕ)
      → IsTable s.table
      → HasIndex l (n + 1)
      → n + 1 < 2 ^ 31
      → get lua tmp unset l s
        ≡ (let r = found (reads s (Key.index n)) tmp in (get_value lua r.type r.v >> give 1) l s)
  unfolding get
  get-before l s n tmp unset quiet args small =
      let positive : not_positive (to_int (n + 1)) ≡ false = ground arith in
      let before : to_size (to_int (n + 1) - 1) ≡ n = ground arith in
      rw (args.type, args.value, positive, before, get_type-found s quiet (Key.index n) tmp) refl

  pub ipairsaux-next :
      (l : L) (s : State) (n : ℕ) (tmp : Value) (kind : Kind) (v : Value)
      → NotNil
      → IsTable s.table
      → HasStep l n
      → n + 1 < 2 ^ 31
      → reads s (Key.index (n + 1)) ≡ some v
      → v.type ≡ tag kind
      → ipairsaux lua tmp l s
        ≡ returns 2 (pushed kind (as_read kind v.v) (lua.lua_pushinteger (n + 1) l)) s
  unfolding ipairsaux
  ipairsaux-next l s n tmp kind v notnil quiet args small there type =
      let same : to_size (to_int (n + 1)) ≡ n + 1 = to_size-to_int (n + 1) small in
      rw
        (
          args.value,
          args.type,
          same,
          get_type-found s quiet (Key.index (n + 1)) tmp,
          there,
          get_value-typed kind v.type v.v (lua.lua_pushinteger (n + 1) l) s type,
          notnil kind (as_read kind v.v) (lua.lua_pushinteger (n + 1) l),
        )
        refl

  -- `t[n] = w`, by the code that the setter returns.
  set-put :
      (l : L) (s s' : State) (n : ℕ) (kind : Kind) (w code : ℕ) (ls ns : Ptr) (tmp : Value)
      → HasIndex l n
      → HasValue l kind w
      → put kind (Key.index n) w tmp s ≡ ok code s'
      → set lua ls ns tmp l s ≡ (if code == 0 then returns 0 l s' else raises l s')
  unfolding set set_value
  set-put l s s' n kind w code ls ns tmp args value run =
      rw (get_key-index l s n args, set_by_type-put l s (Key.index n) kind w ls ns tmp value, run)
        (elim (Bool-cases (code == 0)) [ inl zero ↦ rw zero refl | inr nonzero ↦ rw nonzero refl ])

module _ {L : Type 0} (lua : LuaApi L) (s : State) (quiet : IsTable s.table) (l : L) (kind : Kind)
    (w : ℕ) (value : HasValue lua l kind w) (room : s.table.map.size < 2 ^ 30) (ls ns : Ptr)
    (tmp : Value) where
  -- On a table that no method works on, with fewer than 2^30 slots, and for a Lua value that is a
  -- number, a boolean or light user data, the assignment of the value to an index below 2^31 does
  -- to the table what _insert_table does; it returns without results where the entry was missing,
  -- had no type or the value's type, and otherwise raises an error.
  pub set-Inserted :
      (n : ℕ)
      → HasIndex lua l n
      → n < 2 ^ 31
      → (s' : State) × (set lua ls ns tmp l s ≡ (
          if outcome (reads s (Key.index n)) (tag kind) == 0 then returns 0 l s' else raises l s'))
        × Inserted s (Key.index n) (built kind w tmp) s'
  set-Inserted n args small =
      let k = Key.index n in
      let (s', run, is) = put-Sets s quiet k small room kind w tmp in
      (
        s',
        set-put lua l s s' n kind w (outcome (reads s k) (tag kind)) ls ns tmp args value run,
        is,
      )

  module _ (n : ℕ) (args : HasIndex lua l (n + 1)) (small : n + 1 < 2 ^ 31)
      (fits : (reads s (Key.index (n + 1)) ≡ none)
        ⊎ (type_of (reads s (Key.index (n + 1))) ≡ tag kind)) where
    assigned :
        (s' : State) × (set lua ls ns tmp l s ≡ returns 0 l s')
        × Inserted s (Key.index (n + 1)) (built kind w tmp) s'
    assigned =
        let (s', run, is) = set-Inserted (n + 1) args small in
        (s', rw (outcome-fits (reads s (Key.index (n + 1))) kind fits) at run, is)

    -- On a table that no method works on, with fewer than 2^30 slots, and for a Lua value that is a
    -- number, a boolean or light user data: where the entry at the positive number n + 1, below
    -- 2^31, is missing or has the value's type, the assignment of the value to index n + 1
    -- succeeds, and reading index n + 1 afterwards pushes what the entry n held before, not what
    -- was assigned.
    pub set-get :
        (tmp' : Value) (unset : ℕ × ℕ)
        → (s' : State) × (set lua ls ns tmp l s ≡ returns 0 l s')
          × (let r = found (reads s (Key.index n)) tmp' in
              get lua tmp' unset l s' ≡ (get_value lua r.type r.v >> give 1) l s')
    unfolding same_key
    set-get tmp' unset =
        let other : same_key (Key.index n) (Key.index (n + 1)) ≡ false = ground arith in
        let (s', run, is) = assigned in
        (
          s',
          run,
          rw
              (
                get-before lua l s' n tmp' unset is.quiet args small,
                is.reads_as (Key.index n),
                other,
              )
              refl,
        )

    -- On a table that no method works on, with fewer than 2^30 slots, and for a Lua value that is a
    -- number, a boolean or light user data: where the entry at the number n + 1, below 2^31, is
    -- missing or has the value's type, the assignment of the value to index n + 1 succeeds, and if
    -- what Lua pushes as a value of these kinds is not nil, the step of ipairs that follows n
    -- afterwards pushes n + 1 and the value (a boolean as its 32 bits) and returns both.
    pub set-ipairsaux :
        (l' : L) (tmp' : Value)
        → NotNil lua
        → HasStep lua l' n
        → (s' : State) × (set lua ls ns tmp l s ≡ returns 0 l s')
          × (ipairsaux lua tmp' l' s'
              ≡ returns 2 (pushed lua kind (kept kind w) (lua.lua_pushinteger (n + 1) l')) s')
    set-ipairsaux l' tmp' notnil step =
        let (s', run, is) = assigned in
        let (type, read) = fitting (reads s (Key.index (n + 1))) kind w tmp fits in
        (
          s',
          run,
          ipairsaux-next lua l' s' n tmp' kind _ notnil is.quiet step small (reads-Inserted is) type
              ∙ ap (λ v. returns 2 (pushed lua kind v (lua.lua_pushinteger (n + 1) l')) s') read,
        )
