-- ===== src/Lib.antt =====
-- QaD, a distributed cache: each node holds the keys that a consistent hash ring gives it, in a
-- store with a size limit, answers clients over HTTP and other nodes over gRPC, and hands keys
-- over when a node joins.
--
-- The parts, and the files that model them:
--
-- * consistent_hash_ring/index.go is Ring.antt: `NewRing`, `AddNode`, `RemoveNode`, `NodeOf`,
--   `NodeOfDirect` and `sortInto` are new_ring, add_node, remove_node, node_of, node_of_direct
--   and sort_into. A panic is a value of Outcome. Ring/Spec describes the ring without slices
--   and searches, and the other children hold the lemmas.
-- * storage/index.go is Storage.antt, a record of the operations and of the contract that the
--   callers rely on. storage/fifo.go is Storage/Fifo.antt, storage/lru.go is Storage/Lru.antt
--   and storage/no_eviction.go is Storage/NoEviction.antt, and all three fill the record.
--   Storage/Lru/Simulation takes the writes and deletions of the LRU store to those of the FIFO
--   store. Storage/Queue.antt is the queue of entries that a store with a limit stands for.
-- * proto/node.proto is Proto.antt, with the status of an answer and what is used of other
--   nodes.
-- * grpc_server/index.go is GrpcServer.antt: `Read` and `Write` over any store.
-- * http_server/index.go and http_server/health.go are HttpServer.antt, with the response writer
--   in HttpServer/Response and the handlers in HttpServer/Handlers: `ServeHTTP`, `handleGet`,
--   `handlePost`, `handleDelete`, `forwardGet`, `forwardPost`, `handleForwardError`,
--   `HealthHandler` and `ClusterHandler`. A `go` statement adds a task to the session, and
--   run_task is what the goroutine does.
-- * cluster/grpc_pool.go is GrpcPool.antt. Its map holds places on a heap of entries, and `once`
--   is a flag. GrpcPool/Ledger runs it over a network that numbers its connections.
-- * cluster/node_meta.go and cluster/delegate.go are Metadata.antt: `Marshal`, `Unmarshal` and
--   the delegate's `NodeMeta` are marshal, unmarshal and node_meta_data.
-- * cluster/event_handler.go is EventHandler.antt: `NotifyJoin`, `NotifyLeave` and
--   `NotifyUpdate`. Its loop over the keys is a step relation in EventHandler/Transfer.
-- * config/index.go is Config.antt, with `Load` in Config/Load. Config/CommandLine and
--   Config/Number are the parts of the packages `flag` and `strconv` that it uses,
--   Config/Members is its loop over the members, and Config/Seeds the list of seed nodes.
-- * cluster/zerolog_writer.go is LogWriter.antt.
-- * cluster/membership.go is Manager.antt: `NewManager`, `Join`, `Leave` and `HealthCheck` are
--   new_manager, join, leave and health_check.
-- * main.go is Program.antt: start is `main` up to the signal, phase by phase, and shutdown is
--   what follows. Program/Node has the steps of a running node: an event of the cluster, a
--   request, a goroutine, a round of the goroutine of the store, and the two calls of other
--   nodes, all on one ring, pool and store. Program/Life, Program/Sent and Program/Addresses say
--   what holds after any number of them.
-- * TwoNodes.antt is no file of the sources: it is the HTTP server of one node before the gRPC
--   service of another, with what gRPC does between them.
-- * Base.antt and its children hold what the parts share: Go strings as rows of bytes, Go maps
--   as association lists, slices with their bounds checks, `sort.Search`, `fmt.Sprint` and the
--   64-bit `int`.
--
-- How they interact: the HTTP server asks the ring for the node of a key, and reads or writes its
-- store or calls the gRPC service of the other node through the pool; the event handler changes
-- the ring and the pool, and moves keys from the store to other nodes through the pool. The
-- program loads the settings, makes the store that they choose, and the manager makes the ring and
-- the pool that the others share.
--
-- Bounds and fuel: `sort.Search` runs on as many rounds as there are places, which is enough since
-- each round makes the range smaller; the digits of a number run on the number and one more; the
-- eviction loop of the LRU store runs on the length of its list; the loop over the members of the
-- settings runs on the number of variables and one more, since each round finds a variable of its
-- own. Sizes of the stores are bit patterns below 2 ^ 64 with wrap-around, and the theorems ask
-- that the stored bytes and one more value are fewer than 2 ^ 63. A step of a running node that
-- writes has this room (TaskFits, PairFits). Hashes are natural numbers, since the ring only
-- compares them.
--
-- Parameters: xxhash, `memberlist`, the levels of `zerolog`, the servers of `net/http` and their
-- ports, `google.golang.org/grpc`, the network with the other nodes, the errors of gRPC, and the
-- JSON encoding of the metadata. The named hypotheses on them are WrapKeepsCode, that a wrapped
-- gRPC error keeps its code, RoundTrips, that JSON reads back what it wrote, ReadArrives and
-- WriteArrives, that a call which arrives is answered by the service of the other node, where a
-- field of no bytes is `nil`, with the status in the error of the client (Link), and IsReported,
-- that `memberlist` reports a node that joins under the name and with the metadata of its
-- settings. A test instantiates each.
--
-- Not modelled: generated code, the text of log lines, timeouts, a server that fails while it runs
-- and so ends the process, the `.env` file (the environment is the one after it was read), and
-- calls that run at the same time on one store: every operation is one step, in any order
-- (GrpcPool/Late has one that is overtaken in its midst, and GrpcPool/Ledger rows of calls with
-- such ones among them), and the goroutines that a handler starts run as later steps. IsOrderly is
-- what `memberlist` promises of its events: a node is reported as joined while it is no member,
-- and as gone while it is one.
pub mod Base
pub mod Config
pub mod EventHandler
pub mod GrpcPool
pub mod GrpcServer
pub mod HttpServer
pub mod LogWriter
pub mod Manager
pub mod Metadata
pub mod Program
pub mod Proto
pub mod Ring
pub mod Storage
pub mod TwoNodes
