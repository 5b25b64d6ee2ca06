-- ===== src/Lib.antt =====
-- A verification library of Cortex, the multi-tenant Prometheus service.
--
-- Parts and files.
--   Base        orders, lists, association lists, integers, sorting and Go's sort.Search
--   Merge       the loops over two sorted slices of util/util.go, chunk/by_key.go and ingester/index.go
--   Samples     util/util.go, MergeSamples
--   Labels      util/matchers.go
--   Ring        ring/model.go, ring/ring.go and ring/util.go: the description of the ring in consul, the choice of
--               replicas, ownership and the generation of tokens; and Consul, the updates of a shared key
--               (ring/consul_client.go, ring/consul_client_mock.go)
--   Ingester    the package ingester: Index (index.go), Series (series.go), Mapper (mapper.go), User (user_state.go) and
--               Flush (ingester_flush.go). A User holds a Mapper, an Index and the Series; Flush takes chunks out of
--               a Series in two steps, and where none is left, User's remove_series is what removes the Series.
--               Lifecycle (ingester_lifecycle.go) is the ingester's state and its updates of the Ring's description.
--   Compat      util/compat.go: the messages between the services
--   Validate    util/validate.go: which samples are accepted
--   Chunk       chunk/schema.go: Entries is the entries of the chunk index and their range keys, Buckets the hourly and
--               daily buckets that the hash keys stand for
--               Storage, the tables and chunks in memory (chunk/inmemory_storage_client.go), and Tables, the table
--               manager (chunk/table_manager.go): it works on the interface TableClient, which Storage fills, and its tables
--               are those that the Buckets name. Key is a chunk's external key (chunk/chunk.go), and Store the chunk store
--               (chunk/chunk_store.go), which works on the Storage, the Entries, the Keys and the loops of Merge
--   Distributor distributor/distributor.go: Quorum and Replies are about a write, Query about a query; both use the replicas that
--               the Ring chooses, and Query the merge of Samples
--   Tests       the properties at concrete inputs
--
-- State is passed explicitly: an operation that changes a struct returns the new one. A Go map is an association
-- list and `range` walks it in the list's order. Time is a parameter. A Go panic is `panic` or `none`.
-- The fuel of the intersection of n sets is n, since each call on three or more sets is on fewer; the fuel of the
-- token generation counts draws, and a theorem says how much is enough.
-- The chunks of a series are Prometheus's: the record ChunkOps has what the code calls, and IsChunkOps, AreOrdered
-- and ReadsRange have what it relies on.
-- Not modelled: the chunk cache and the remote clients of the chunk store, the transfer of chunks between
-- ingesters, the watches on consul, the ruler, the querier, the configs service and the alertmanager; of the
-- modelled packages the goroutines, the metrics and the HTTP pages, which are input and output. The updates
-- of a ring or a key that fail part of the way are: an update is what its callback does at each attempt, and
-- other clients write between the calls.
-- Locks are not modelled, and each operation is one step, but for unlockedGet: User/Calls takes it apart, under the
-- locks of the fingerprints, into the steps that other calls come between. Protobuf messages are records.
pub mod Base
pub mod Merge
pub mod Samples
pub mod Labels
pub mod Ring
pub mod Ingester
pub mod Chunk
pub mod Distributor
pub mod Tests
pub mod Compat
pub mod Validate
