-- ===== src/Tests.antt =====
-- Tests of the contracts' definitions, and the theorems at concrete inputs.
mod Toy
mod Worlds
mod Spends
mod Parts
mod Allowlists
mod Others
mod Trees
mod Indexing
