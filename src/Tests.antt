-- ===== src/Tests.antt =====
-- Examples: concrete tables and floats, runs of the code and the theorems at concrete inputs.
mod Values
mod UnionFind
mod MinHash
mod Lsh
mod Tokenizer
mod Transitivity
mod Database
mod Storage
mod Sync
mod DiskLsh
mod Phase2
mod Progress
mod SyncMode
