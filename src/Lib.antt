-- ===== src/Lib.antt =====
-- A verification library for the Go packages of this repository, labs of a course on distributed
-- systems. Each module models one part of a package as functions and step relations, and proves what
-- makes that part correct. Paths are from the repository's root.
--
-- The parts and how they interact.
--   src/raft: a peer keeps a replicated log. Handlers for the RPCs of other peers, a loop that waits
--   for timeouts, and goroutines for elections and for replication share one state under a mutex;
--   committed entries go to the service on a channel; term, vote and log go to a Persister.
--   src/labrpc: the network on which the peers call each other. The tester commands it, and each call
--   is a goroutine that finds the server, runs its handler and decides whether the caller hears of it.
--   src/mapreduce: a master splits a job into map and reduce tasks. A job is run in the master, or its
--   tasks are handed to workers over RPC; tasks meet only in the files that they share.
--   src/main: wc.go and ii.go are two jobs, word count and inverted index.
--   src/lockservice: a lock server, its accept loop and its clerk.
--   src/shardmaster and src/shardkv: the clerks of a key/value service whose keys are spread over
--   groups of servers; a clerk asks the shardmaster which group has a key.
--   src/raft/config.go: the tester starts and crashes Raft peers, attaches them to a network of
--   src/labrpc and detaches them, and checks who leads and what is committed.
--   src/kvraft/config.go: another tester, which splits its servers into two sides.
--
-- Which file models what.
--   Prelude: shared names, tests on numbers (Tests), lists over the native numbers (Lists), integers
--   (Int), texts as lists of bytes with strconv.Itoa (Text), Go's maps (Maps), and families (Families).
--   Raft/Persister: src/raft/persister.go. Raft/Peer: the types of src/raft/raft.go. Raft/Roles: Make,
--   BeFollower, BeCandidate, BeLeader, persist, readPersist, updateLastApplied. Raft/Vote:
--   RequestVote and startElection. Raft/Append: AppendEntries, InstallSnapshot, Start. Raft/Leader:
--   StartAppendLog. Raft/Steps: every section under the mutex as one step of a peer. The proofs:
--   Raft/Terms (terms and votes over a peer's life), Raft/Delivery (what reaches the service),
--   Raft/Replication and Raft/CatchUp (how a log is copied), Raft/Voting (elections), Raft/Descending and
--   Raft/Commit (the commit index), Raft/Durable (crashes), Raft/Faults (where the code parts from the algorithm).
--   Raft/Cluster: peers and the goroutines of their elections together. Its proofs: Raft/Tame (what a
--   step does to a peer's role), Raft/Ballots (the votes cast) and Raft/Elections.
--   Labrpc/Network: Network and the tester's methods. Labrpc/Server: Server and Service.
--   Labrpc/Process: ProcessReq as a step relation. Labrpc/Calls, Labrpc/Killed and Labrpc/Progress:
--   what a caller may conclude from a reply, requests to a killed server, and the end of ProcessReq.
--   MapReduce/Common: common.go and common_rpc.go of src/mapreduce. MapReduce/Files: the shared
--   file system and streams of pairs. MapReduce/Map and MapReduce/Reduce: doMap and doReduce,
--   with their proofs in MapReduce/Partition and in MapReduce/Grouping and MapReduce/Reducing.
--   MapReduce/Merge: master_splitmerge.go, with its proofs in MapReduce/Merging.
--   MapReduce/Sequential: the sequential job of master.go, its phases in MapReduce/Phases and as
--   a whole in MapReduce/WholeJob. MapReduce/Schedule: schedule.go as a step relation, with its
--   proofs in MapReduce/Scheduling, and in MapReduce/Held for calls that fail. MapReduce/Worker: the
--   handlers of worker.go. MapReduce/Serving: its accept loop and the handlers as a step relation, with
--   the proof in MapReduce/Quota. MapReduce/Distributed: a job whose
--   tasks are handed to workers, with the files they share; its proofs are MapReduce/TasksDone (a phase),
--   MapReduce/DistributedJob (a job) and MapReduce/Ordered (sorted keys).
--   Jobs/Words, Jobs/WordCount and Jobs/InvertedIndex: mapF and reduceF of src/main, with the proofs in
--   Jobs/Counting and Jobs/Results, and word count as a whole job in Jobs/CountJob.
--   Lockservice/Server: server.go, common.go and client.go of src/lockservice, with the proofs in
--   Lockservice/Locking and Lockservice/Accepting.
--   Shards/Retry and Shards/Master: the clerk of src/shardmaster/client.go, and common.go.
--   Shards/Client: client.go and common.go of src/shardkv, with the proofs in Shards/Asking (the rounds),
--   Shards/Groups (the group of a key), Shards/Served (Get) and Shards/PutServed (PutAppend).
--   Tester/Config: config.go of src/raft, with what each operation does to the network in
--   Tester/Enabling, Tester/Ends, Tester/Links and Tester/Restarts, and any sequence of them in
--   Tester/Reachable. Tester/Leaders: its checkOneLeader, with its proof in Tester/OneLeader, and on a
--   cluster of Raft peers in Tester/Polls. Tester/Commits: the readers of the apply channels and
--   nCommitted, with the proofs in Tester/Agreement and Tester/Applied. Tester/Waiting: its checkTerms,
--   checkNoLeader, wait and one, with the proofs in Tester/Agreeing. Tester/Partition: partition and
--   make_partition of src/kvraft/config.go, with the proofs in Tester/Sides, and in Tester/Split (a
--   loop) and Tester/Minority. Tester/KvConfig: the rest of that file, with its start in
--   Tester/KvStart, and all of it together in Tester/Isolate. Tester/Rows: the names of ends, for both
--   testers.
--   Scenarios: tests, and each theorem at a concrete input.
--
-- How code is read.
--   A struct is a record and a method is a function on it. The code that runs under a mutex is one
--   step; goroutines are steps of a relation, in any order. A result none is the end of the process: an
--   index out of range, a nil, log.Fatal. A buffered channel is the number of values that it holds
--   (Raft), a channel to the service is the history of what was sent, an unbuffered channel is the
--   goroutines that wait on it (Schedule). Terms, indices and counters are not bounded, except where
--   the source computes modulo a power of 2 (the hash of doMap) and in the sums of the word count. The
--   vote -1 and the nil command are none. A map is an association list in the order in which its keys
--   came, and so is the order of a range over it; the callers sort the keys or do not depend on it.
--   gob (Raft/Peer), JSON (MapReduce/Files), the reflection of labrpc and unicode.IsLetter are
--   parameters; IsCodec and IsJson state that what was encoded is decoded, as their documentation says
--   of the values that occur here: texts of a job are taken to be UTF-8.
--   The file system, sockets and RPC of the standard library appear as what their callers see: files
--   as an association list whose writes succeed, a call as its reply or its failure.
--
-- Fuel. updateLastApplied has as many rounds as its loop makes, the distance from LastApplied to
-- CommitIndex. The loop of StartAppendLog for one peer has one round more than the next index
-- that it starts from, which falls in each round. A stream is decoded with one step more than it
-- has bytes, since each pair takes one at least. strconv.Itoa of n has n + 1 rounds for its
-- digits. The loops of the clerks have no bound in the code: their theorems say from which
-- number of rounds on they have returned. The loops of a tester that run for some time take a list of
-- what they read in each round, of any length.
--
-- Not modelled. The clock of the testers, command lines and listeners are I/O. viewservice,
-- pbservice, paxos, kvpaxos, paxos-shardmaster, paxos-shardkv, diskv and the servers of src/kvraft,
-- src/shardmaster and src/shardkv are skeletons whose handlers are empty. src/shardmaster/config.go is a
-- copy of most of src/kvraft/config.go; of src/shardkv/config.go nothing is modelled. Of a whole
-- cluster of Raft peers, the elections are modelled, without crashes: BeCandidate does not store its
-- vote, so a peer that crashes can vote twice. Agreement of the logs of a cluster is not stated, since a
-- delayed request can delete committed entries.
pub mod Prelude
pub mod Labrpc
pub mod Lockservice
pub mod Raft
pub mod MapReduce
pub mod Jobs
pub mod Shards
pub mod Tester
pub mod Scenarios
