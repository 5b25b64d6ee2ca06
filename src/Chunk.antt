-- ===== src/Chunk.antt =====
-- The chunk package: the entries and buckets of the chunk index (chunk/schema.go).
pub mod Entries
pub mod Buckets
pub mod Key
pub mod Storage
pub mod Tables
pub mod Store
