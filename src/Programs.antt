-- ===== src/Programs.antt =====
-- The programs of the repository.
pub mod Main
pub mod Clean
pub mod LuaMain
pub mod PoolTest
