-- ===== src/Tests/Typed.antt =====
-- Calls of setters in a row, on the sample table.
use lighttable.Prelude.{◌≡◌, [], ◌∷◌, arith}
use lighttable.Struct.{Key, index}
use lighttable.State.{State, ok}
use lighttable.Table.Valid.{IsTable, reads}
use lighttable.Table.Read.{number, boolean, ud}
use lighttable.Table.Types.{Call, puts, answers, settled, type?, puts-settled}
use lighttable.Tests.Tables.{sample, sample-IsTable, junk}
use mathlib.Core.List.{List}

-- Of a number, a key without an entry, and that key again with another type.
abbrev calls : List Call
calls =
    record { kind = number; key = index 5; value = 1 }
    ∷ record { kind = boolean; key = index 7; value = 1 }
    ∷ record { kind = ud; key = index 7; value = 9 }
    ∷ []

puts-settled_example :
    (s' : State) × (puts junk calls sample ≡ ok (answers (λ q. type? (reads sample q)) calls) s')
    × IsTable s'.table
    × ((q : Key) → type? (reads s' q) ≡ settled (λ r. type? (reads sample r)) calls q)
puts-settled_example =
    puts-settled sample calls junk sample-IsTable (omega arith, (omega arith, (omega arith, tt)))
      (omega arith)
