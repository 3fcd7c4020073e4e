-- ===== src/Lua/Size.antt =====
-- lighttable.size of ltlua.cpp: _size.
use lighttable.Prelude.{◌-◌, ◌*◌, ◌≡◌, refl, true, length, take, leb, arith}
use lighttable.Prelude.Word.{IsInt}
use lighttable.State.{State}
use lighttable.Table.{max_hash_depth}
use lighttable.Table.Valid.{IsTable}
use lighttable.Lmap.Count.{entries}
use lighttable.Keys.{limit_of}
use lighttable.Keys.Listed.{all_keys, keys-take, size-ok, length-take, length-all_keys}
use lighttable.Lua.{LuaApi, returns, lua_size}
use Prim.Native.Nat.{min}

module _ {L : Type 0} (lua : LuaApi L) (s : State) (quiet : IsTable s.table)
    (small : IsInt (s.table.map.size * max_hash_depth)) (l : L) where
  -- On a table that no method works on, with 7 times as many slots as an int can hold at most,
  -- lighttable.size leaves the table as it was and pushes the number of entries, but at most one
  -- less than seven times the number of slots.
  pub lua_size-min :
      lua_size lua l s
      ≡ returns 1
          (lua.lua_pushnumber
            (lua.to_double (min (s.table.map.size * 7 - 1) (entries s.table.map.buckets)))
            l)
          s
  unfolding lua_size
  lua_size-min =
      let room = s.table.map.size * 7 in
      let e : limit_of room ≡ room - 1 = omega (arith, quiet.map.pos) in
      let listed : length (take (room - 1) (all_keys s.table.map.buckets))
          ≡ min (room - 1) (entries s.table.map.buckets) =
        rw
          (
            length-take (room - 1) (all_keys s.table.map.buckets),
            length-all_keys s.table.map.buckets,
          )
          refl in
      let fits : leb (min (room - 1) (entries s.table.map.buckets)) room ≡ true = ground arith in
      rw
        (
          size-ok s quiet small,
          keys-take s room quiet (omega (arith, quiet.map.pos)),
          e,
          listed,
          fits,
        )
        refl
