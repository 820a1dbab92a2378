-- ===== src/Lib.antt =====
-- A memory database for agents, kept in one append-only file. This library models its storage engine,
-- the in-memory mirrors over it, and the queries on plans and graphs.
--
-- The parts and their code:
-- Storage is internal/repo/core. A file is two header slots of 4096 bytes, a record area of frames from
-- byte 8192 on, and possibly a snapshot of the index behind it. Frame is frame.go (EncodeRecord,
-- RecordData), Header is header.go, Snapshot is snapshot.go and the blob length of reclaim.go, Engine
-- is engine.go, Read is engine_read.go, Write is engine_write.go, Delete is engine_delete.go, Tail is
-- the trim and the header flips of reclaim.go and engine_lifecycle.go, Recovery is
-- engine_recovery.go, Lifecycle is Create, Open, Checkpoint and Close of engine_lifecycle.go. Crc is
-- the IEEE checksum of Go's hash/crc32. Domains is the index, agent id to id hash to offset.
-- Index is internal/repo/index. Content is l4.go, Topics is l2meta.go.
-- The trees of steps are internal/domain/plancache.go and internal/repo/l5layer.go in Plan.antt, and
-- internal/plan/status.go and internal/plan/tree.go in Plan/Status.antt and Plan/Views.antt.
-- The writes of steps, internal/plan/write.go with WritePlanNode of l5layer.go and HashPlanNode of
-- internal/repo/core/model.go, are Plan/Writes.antt;
-- the steps that go with deleted topics, of l5layer.go too, are Plan/Cascade.antt.
-- The rebuild of the cache from the records is Plan/Rebuild.antt.
-- Records is internal/repo/core/record.go: typed records over the engine. Repo is the layers on them:
-- Topics and Scenes are internal/repo/l2layer.go and l2layer_topic.go, Contents is
-- internal/repo/l4layer.go.
-- Compact of reclaim.go is Storage/Compact.antt.
-- Graph is internal/graph/query.go.
-- Errors is the codes of internal/common/errors.go, Common is internal/common/sliceutil.go and
-- internal/common/hash.go. Prelude: lists, maps, bytes and integers.
--
-- How they correspond: a method of StorageEngine is an `Act`, a function from the engine to a result
-- and the engine behind it, so that what was changed before an error stays changed. The engine holds
-- the bytes of the file, the length that is mapped, the two headers, the index and its copy by type.
-- Every system call takes the next entry of the engine's plan, which says whether the call succeeds or
-- how many bytes a failed write left; past its end all calls succeed, and a theorem that asks for an
-- empty plan is about the runs without a failing call. The lock has no counterpart: a method is one
-- critical section. A Go map is an association list, and no theorem depends on the order of iteration.
-- A uint64 sum that can wrap is written with its modulus; an offset into a file is below that.
--
-- Views: `Storage.View` reads a log of frames as a store of records, the abstract contract of the
-- engine; `Storage.Store` shows that the operations keep it, `Storage.Store.History` for every sequence
-- of events.
--
-- Fuel: the scan of `Storage.Recovery` has one round for every byte behind its start and one more, the
-- walk of `Graph` one for every entry of the adjacency and one more, when no depth bounds it; each is
-- shown to be enough. The other loops go down a list.
--
-- A header's snapshot offset and length are taken to sum below 2^63, where Go's int does not wrap.
--
-- Not modelled: the types of record but the scene, the topic, the content slot and the step of a plan, the layers, services and sessions over
-- them, model providers, configuration, and the public interface. The
-- functions strings.Contains, strings.ToLower and strconv.FormatUint are parameters where they occur, and so are
-- encoding/json, xxhash and the time that the clock gives.
pub mod Prelude
pub mod Errors
pub mod Common
pub mod Records
pub mod Repo
pub mod Storage
pub mod Index
pub mod Plan
pub mod Graph
pub mod Examples
