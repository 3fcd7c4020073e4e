-- ===== src/Tests/Runs.antt =====
-- The program main.cpp, where there is a table at the address 2.
use lighttable.Prelude.{◌≡◌, ◌≢◌, arith}
use lighttable.State.{ok}
use lighttable.World.{World}
use lighttable.Programs.Main.{main}
use lighttable.Programs.Clean.{SameMemory, main-SameMemory}
use lighttable.Tests.Tables.{junk}
use lighttable.Tests.Trees.{circle}
use lighttable.Tests.Supplies.{tower, Above, tower-Supply, occupied, top}

circle-Above : Above 2 circle
unfolding occupied
circle-Above = (3, omega arith, λ p le. ground arith)

not_null : tower.new_table_at circle ≢ 0
unfolding occupied top
not_null = omega arith

main-SameMemory_example : (w' : World) × (main 1 tower junk circle ≡ ok 0 w') × SameMemory circle w'
main-SameMemory_example =
    main-SameMemory tower Above tower-Supply junk circle circle-Above (omega arith) (omega arith) 1
      not_null
