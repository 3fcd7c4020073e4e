-- ===== src/Tests.antt =====
-- Runs of the code at small inputs, and the theorems at them.
mod Tables
mod Binding
mod Trees
mod Maps
mod Pools
mod Utils
mod Parallel
mod Contents
mod Assigned
mod Releases
mod Supplies
mod Conversions
mod Runs
mod Typed
