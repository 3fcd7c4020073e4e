-- ===== src/Lib.antt =====
-- lighttable: a table with string and number keys for Lua programs, in C++, and a memory pool.
--
-- The program has these parts. ltutil.cpp hashes keys, makes and compares strings and finds the
-- primes from which the first table size comes. lmap.cpp is a hash map with chained buckets whose
-- nodes hold values (lstruct.h). lighttable.cpp wraps one map at a time in a class table: readers
-- take a reference to the map and search it, a writer takes the table's lock, inserts, and where the
-- walk along a chain was long copies everything into a map of twice the size that then replaces the
-- old one. Values of type string point to an lstring, which points to a counted slot. ltlua.cpp binds
-- the class to Lua, and memory_pool/ is a free list of blocks that stands alone.
--
-- Which file models which part:
--   Prelude         Boolean tests, lists, and machine words as bit patterns with their conversions
--                   written out: an int is a number below 2^32, a size_t one below 2^64.
--   Struct          lstruct.h. The eight bytes of the union in struct value are one number. A key is
--                   the pair of arguments `const char *key, size_t sz_idx`.
--   Util            ltutil.cpp: hash, cmp_string, new_string, is_prime, next_prime. sqrt is a
--                   parameter, a root that is rounded down. next_prime runs on fuel, and a
--                   theorem says how much is enough.
--   Lmap            lmap.cpp, every method: _search is search, _insert_value is insert_value,
--                   _copy_map is copy_map, _delete_without_data is delete_without_data, and so on. A
--                   chain is the list of its nodes, data the list of the chains. What a map
--                   means is Lmap.Valid.view, a function from keys to values.
--   State           The data members of class table, the memory of strings, and runs of methods,
--                   which may fault: an assertion fails, a lock is waited for without end, or
--                   memory that is not there is used.
--   Table           lighttable.cpp: the locks, _grab_map, _release_map, the searches, the getters,
--                   _expand_hash, _update_map, _insert_table and the setters of values that lie in
--                   the union. What a caller leaves on the stack is an argument. Table.Types follows
--                   the type of each key through calls of setters in a row.
--   Keys            table::size and table::keys.
--   Strings         _grab_string, _release_string, value_string, get_string, _update_string and
--                   set_string. The addresses that malloc returns are arguments.
--   Dictionary      What the setters and getters promise together: a dictionary from keys to contents.
--   Lifetime        getref, grab, _release and ~table, in the memory of one table, where the _release
--                   of another table through a value finds no table and faults.
--   World           Several tables in one memory, with the buffer of serialize and the standard
--                   output. World.on runs a method on the table at an address. World.Release has
--                   _release and delete with the releases of the tables that values hold, on an
--                   argument for the depth of the stack, of which one more than the depth of a tree of
--                   tables is enough; World.Life new and delete of a pointer, World.Values _copy_value,
--                   World.Printing printstr. World.Cells and World.Owned describe what a table keeps
--                   alive, World.Supply what the conversion relies on of new and malloc.
--   Serialize       _add_string_to_buff, _do_serialize, serialize, get_serialed. The depth of the stack
--                   is an argument: one more than the depth of a tree of tables is enough, and for
--                   tables in a circle (Serialize.Endless) no depth is. What sprintf makes of a
--                   number is a parameter.
--   Threads         The counts and locks of the maps where one or more threads search and others insert:
--                   _grab_map, _release_map, _search_map, _update_map and _insert_table as step
--                   relations, Threads.Read and Threads.Write, over the interleavings of which
--                   Threads.Runs.Steps ranges. A step that uses a map that has been deleted, or that
--                   fails the assertion of _grab_map, is no step.
--   Slots           The same for one lstring and its slots: _grab_string and _release_string,
--                   Slots.Grabbing, and _update_string, Slots.Updating, by any number of threads.
--   Lua             ltlua.cpp: the functions behind __index, __newindex, ipairs, pairs and size on one
--                   table, in Lua.Tables and Lua.Convert those on several. The Lua API is a record of
--                   functions, Lua.LuaApi and Lua.Tables.LuaCalls, that the definitions take as a
--                   parameter; a Lua error is an outcome of its own. do_convert takes a depth of the
--                   stack and a number of rounds for each loop: one more than the depth of the Lua
--                   table, and one more than the pairs of each, are enough. Lua.Convert.Tree describes
--                   the Lua table that is converted, and Lua.Contents has __newindex and __index on a
--                   dictionary.
--   LuaStack        lua-5.1.4/src/lapi.c and lauxlib.c: the functions on the stack that the binding
--                   calls, which fill Lua.LuaApi.
--   Programs        main.cpp, in Programs.Main, luamain.cpp and memory_pool/test.cpp.
--   MemoryPool      memory_pool/mem_pool.cpp over an explicit memory of blocks; what new returns is
--                   a parameter.
--   Tests           Runs at small inputs, and the theorems at concrete tables.
--
-- But for Threads and Slots, the methods are run by one thread, so that a table between two
-- methods has its locks free and one reference to its map (Table.Valid.IsTable). In Threads and
-- Slots each access to memory that another thread may have changed is a step of its own, but that
-- what is done under a lock with what is written under it alone is one step, and all threads see
-- the steps in one order;
-- the entries of the maps and the bytes of the slots, which are read and written without locks,
-- are left out. Insertions are stated for tables with fewer than 2^30 slots, since the doubled
-- size must fit an int, and for keys that an int can hold, since numkey and sz are ints.
--
-- Not modelled: timing and the lines that _insert_map_value and _expand_hash print of it; the slots
-- of keys as memory, which nodes hold as values, so that nothing is stated of freeing them; the rest of Lua in lua-5.1.4/. An allocation is taken to succeed.
pub mod Prelude
pub mod Struct
pub mod Util
pub mod Lmap
pub mod State
pub mod Table
pub mod Keys
pub mod Strings
pub mod Dictionary
pub mod Lifetime
pub mod World
pub mod Serialize
pub mod Programs
pub mod Threads
pub mod Slots
pub mod LuaStack
pub mod Lua
pub mod MemoryPool
mod Tests
