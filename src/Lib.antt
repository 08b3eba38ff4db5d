-- ===== src/Lib.antt =====
-- Verification library of micros3, an S3-compatible object store that keeps full replicas on a few
-- nodes under a leader, and erasure-coded shards for cold objects.
--
-- The parts and their files, with the sources they model:
--   Domain     internal/domain/s3/object.go and internal/domain/cluster/node.go: metadata,
--              transactions and nodes, with the two TransitionTo methods.
--   Codec      internal/infrastructure/storage/ec/codec.go: NewCodec, Encode, Reconstruct, Verify.
--              The library behind it is the record Codec/ReedSolomon.Encoder with the laws
--              IsReedSolomon, and its constructor a function with the law IsNew. A slice index out of
--              range is the error `panic`.
--   Disk       Go's os and path/filepath as the storage calls them: a disk is the list of its
--              entries with a script of the calls that fail.
--   Storage    internal/infrastructure/storage/fs/filesystem.go: Layout (paths, the removal of
--              shards and of empty directories), Buckets, Transactions (StageObject,
--              CommitTransaction, AbortTransaction and the reads of a transaction), Objects, with
--              Objects/Listing for ListObjectsV2, Shards (the single shards) and Uploads
--              (multipart uploads).
--              Frames, Isolation, Staging, Moves, Commit and Aborted hold the proofs.
--   Cluster    internal/cluster/static_manager.go: Static, with Membership and Heartbeats.
--              internal/cluster/k8s_manager.go: Election (the lease, IsLeader, the pod label) and
--              Discovery (the followers, their health, the cached list of alive ones).
--              Election/System puts any number of nodes before one API server, as a step relation.
--   Peers      internal/internal_api: handlePrepare, handleCommit and handleAbort of handlers.go, and
--              the calls of client.go that reach them; Peers/Shards has the requests of erasure coding,
--              with the proofs in Peers/Delivered. What HTTP does to a request is a `Fate`,
--              and where a node breaks off copying a shard into its answer is an option of a number.
--   Replication internal/replication/replicator.go: PrepareAll, CommitAll, AbortAll.
--   Sync       internal/replication/coordinator.go with handleKeys and handleSyncDelete of
--              internal/internal_api/handlers.go: Sync (the listings and what two of them differ in) and
--              Sync/Follower (SyncFollower on the two disks). Reads, Pushes, Names, Reconcile, Complete
--              and Plans hold the proofs. Reading an erasure-coded object is a parameter.
--   Erasure    internal/replication/ec/manager.go: Erasure (the requests to one node), Convert, Gather
--              (ReadECObject, with the search and the download that a repair has too) and Repair, with
--              the scans of the two loops. Shares says what a disk holds of one object; Puts, Nodes,
--              Answers, Located, Downloaded, Read, Distributed, Converted, Removals, Repaired, Placed and
--              Delivered hold the proofs.
--   Auth       internal/presentation/s3api/auth.go: Chunked (decodeChunkedBody). Framing is the format that
--              its comment gives; Decoded and Bodies hold the proofs. The fuel is the length of the
--              body, and more gives the same.
--   Errors     internal/presentation/s3api/errors.go: MapErrorToS3.
--   Config     internal/config/config.go: parseDurations and Validate, with Validity and Accepted for the
--              proofs.
--   Service    internal/application/s3app/service.go: Writes (PutObject and DeleteObject once a write
--              is admitted), Leases (sync leases and the admission), Syncs (HandleSyncRequest), Requests
--              (PutObject, DeleteObject, GetObject and CopyObject from the admission on) and Multipart
--              (CompleteMultipartUpload up to its call of PutObject, and the reader that this call
--              gets; the MD5 is a parameter). Multipart/Selected, Assembled and Returned, Atomicity,
--              Replicated, Leases/Exclusion, Syncs/Outcome and Requests/Copies and Counting hold proofs, and
--              so do Replication's Frames, Rounds, Parts, Phases.
--
-- The service stages a transaction on the leader and on each follower that Cluster.Static lists as
-- alive, and commits or aborts it on each; what that does to one node's disk is Storage. The nodes
-- are a World: the leader's disk, a disk for each address, and the leader's view of the nodes. The
-- goroutines of a phase work on different nodes and run one after the other; each request may be
-- lost, break off, or lose its answer, as an arbitrary function of phase and address decides.
-- A method that waits on a condition variable is cut at the wait.
--
-- Times are numbers, as the clock gave them; reads of the clock within one step are one. Strings are
-- lists of bytes, JSON files hold the value that was written. The sync requests of Service run with the
-- static manager; the Kubernetes manager stands for itself, and its MarkDead is compared with the
-- static one's. The only fuel is that of cleanEmptyDirs, the length of its path: each round goes
-- one directory up, and the loop ends at the root. Writing under a temporary name and renaming is one
-- step, because a failed write leaves no file that the storage reads.
--
-- Not modelled: HTTP, XML, the signature of a request, metrics, logging, the defaults and the
-- sources of the configuration, the worker that asks for a sync, handing the reader of a completed
-- upload to PutObject, and the clean-up of old transactions.
pub mod Base
pub mod Domain
pub mod Codec
pub mod Disk
pub mod Storage
pub mod Cluster
pub mod Service
pub mod Auth
pub mod Config
pub mod Erasure
pub mod Errors
pub mod Peers
pub mod Replication
pub mod Sync
