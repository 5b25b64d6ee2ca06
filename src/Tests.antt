-- ===== src/Tests.antt =====
-- The properties at concrete inputs.
pub mod RingTests
pub mod MergeTests
pub mod IngesterTests
pub mod SeriesTests
pub mod StorageTests
pub mod TableTests
pub mod ChunkTests
pub mod DistributorTests
pub mod ConsulTests
pub mod LifecycleTests
pub mod CompatTests
pub mod InOnes
pub mod StoreTests
