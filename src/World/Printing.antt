-- ===== src/World/Printing.antt =====
-- printstr of ltutil.cpp, a callback of value_string.
use lighttable.Prelude.{◌++◌, ◌∷◌, []}
use lighttable.Struct.{Bytes}
use lighttable.State.{ok}
use lighttable.World.{Action}
use lighttable.Serialize.{c_string}

-- `printf("%s\n", str)`: the text up to its first zero byte, and the end of the line.
unfoldable pub printstr : Bytes → Action (Unit {0})
printstr str w = ok tt (record w { printed = w.printed ++ (c_string str ++ b'\n' ∷ []) })
