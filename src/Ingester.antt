-- ===== src/Ingester.antt =====
-- The ingester package, part by part: the inverted index (ingester/index.go), the fingerprint mapper
-- (ingester/mapper.go), a series and its chunks (ingester/series.go), a user's state
-- (ingester/user_state.go) and the flushing of series (ingester/ingester_flush.go).
pub mod Index
pub mod Series
pub mod Mapper
pub mod User
pub mod Flush
pub mod Lifecycle
