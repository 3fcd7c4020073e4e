-- ===== src/Programs/LuaMain.antt =====
-- The program luamain.cpp. Lua, which loads and runs the scripts, is a parameter.
use lighttable.Prelude.{ℕ, Option, none, some, [], ◌∷◌, ◌++◌, ◌==◌, if◌then◌else◌}
use lighttable.Struct.{Bytes}
use lighttable.World.{World}
use lighttable.Lua.{Outcome, returns, Binding, give, and_then, ◌>>=◌, ◌>>◌, push}
use lighttable.Lua.Tables.{LuaCalls, init_light_table}

-- `lua_loadfile` and `lua_pcall` return 0 for success. A call may change the world.
pub record LuaHost (L : Type 0) : Type 0 where
  pub calls : LuaCalls L
  pub lual_newstate : L
  pub lual_openlibs : L → L
  pub lual_loadfile : Bytes → Binding World L ℕ
  pub lua_pcall : Binding World L ℕ
  pub lua_getglobal : Bytes → L → L
  pub lua_close : L → L

abbrev pub predo_path : Bytes
predo_path = b'.' ∷ b'/' ∷ b't' ∷ b'e' ∷ b's' ∷ b't' ∷ b'.' ∷ b'l' ∷ b'u' ∷ b'a' ∷ []

module _ {L : Type 0} (host : LuaHost L) where
  -- `cout << text << endl`.
  abbrev pub say : Bytes → Binding World L (Unit {0})
  say text l w = returns tt l (record w { printed = w.printed ++ (text ++ b'\n' ∷ []) })

  -- A message where the code is not 0.
  abbrev pub complain : ℕ → Bytes → Binding World L (Unit {0})
  complain error text = if error == 0 then give tt else say text

  -- `init_lua` where `L` is null.
  unfoldable pub load_lua : Binding World L (Unit {0})
  load_lua = do
    push host.lual_openlibs
    init_light_table host.calls
    error ← host.lual_loadfile predo_path
    complain error (b's' ∷ b's' ∷ b's' ∷ b's' ∷ b's' ∷ [])
    error' ← host.lua_pcall
    complain error' (b't' ∷ b't' ∷ b't' ∷ b't' ∷ [])

  -- On the global `L`.
  unfoldable pub init_lua : Option L → World → Outcome World L (Unit {0})
  unfolding load_lua
  init_lua none w = load_lua host.lual_newstate w
  init_lua (some l) w = returns tt l w

  unfoldable pub call_lua : Binding World L (Unit {0})
  call_lua = do
    push (host.lua_getglobal (b'f' ∷ b'u' ∷ b'n' ∷ []))
    error ← host.lua_pcall
    complain error (
        b'w' ∷ b'h' ∷ b'a' ∷ b't' ∷ b' ' ∷ b't' ∷ b'h' ∷ b'e' ∷ b' ' ∷ b'h' ∷ b'e' ∷ b'l' ∷ b'l'
        ∷ [])

  -- `main`.
  unfoldable pub main : World → Outcome World L ℕ
  unfolding init_lua call_lua
  main w = and_then (init_lua none w) (λ _. call_lua >> push host.lua_close >> give 0)
