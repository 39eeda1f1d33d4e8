-- ===== src/Lib.antt =====
-- Kauri: HotStuff on a tree of replicas, with pipelined blocks and aggregated certificates.
--
-- The program has four layers. Certificates (include/hotstuff/crypto.h, src/crypto.cpp) prove votes.
-- Entities (include/hotstuff/entity.h) are blocks, commands, the storage that finds them by hash and
-- the configuration. The core (include/hotstuff/consensus.h, src/consensus.cpp) is the state machine
-- `HotStuffCore`: it delivers blocks, proposes, votes, locks and commits, and calls virtual functions
-- for what it sends. The network layer (include/hotstuff/hotstuff.h, src/hotstuff.cpp) and the
-- pacemakers (include/hotstuff/liveness.h) drive it.
--
-- Base.antt          tests, lists, association maps, and state with exceptions (`Exec`)
-- Crypto.antt        Crypto/Scheme is the interface of the certificates; Crypto/Dummy is
--                    `QuorumCertDummy`; Crypto/AggBls is `QuorumCertAggBLS`; Crypto/Secp is
--                    `QuorumCertSecp256k1`
-- Entity.antt        Entity/Config, Entity/Block and Entity/Storage: the classes of entity.h
-- Core.antt          Core/State is the class `HotStuffCore` and its small methods; Core/Deliver is
--                    `on_deliver_blk`; Core/Update is `update`; Core/Votes is `on_receive_proposal`,
--                    `on_receive_vote` and `async_qc_finish`; Core/Propose is `on_propose` and
--                    `process_block`; Core/Setup is the constructor, `on_init` and the options;
--                    Core/Prune is `prune`. The modules below these hold the proofs. Core/Agreement is
--                    about several replicas: the tree of blocks by their hashes, quorums, the votes
--                    that a replica sends in any sequence of calls, and that replicas commit along one
--                    branch.
-- Wire.antt          the `serialize` and `unserialize` methods: Wire/Stream is the stream,
--                    Wire/Entities the blocks of src/entity.cpp, Wire/Proposals the proposals,
--                    Wire/Messages the votes, relays, finalities, commands and requests, Wire/Certs and
--                    Wire/SecpCerts the certificates, and Wire/Agg what is sent with the aggregated ones
-- Net.antt           `HotStuffBase`: Net/Tree is the part of `start` that lays the replicas out as a
--                    tree, and Net/Start what it keeps of it; Net/State is the class; Net/Votes is
--                    `propose_handler`, `vote_handler` and `do_vote`; Net/Relays is
--                    `vote_relay_handler`; Net/Beat is `beat`, `do_decide` and the handler of the queue
--                    of commands; Net/Fetch is `FetchContext`, `async_fetch_blk`, `on_fetch_blk` and
--                    `on_deliver_blk`. Net/Sends, Net/Raises and the modules below Net/Relays, Net/Beat
--                    and Net/Fetch hold the proofs.
-- Pace.antt          Pace/HighTail is `PMHighTail`; Pace/WaitQc is `PMWaitQC` with `PaceMakerDummy` and
--                    `PaceMakerDummyFixed`; Pace/RoundRobin is `PMRoundRobinProposer`
-- Pool.antt          `VeriPool` of include/hotstuff/task.h, the threads that verify signatures: the
--                    steps of the main thread and of each thread, taken in any order, on queues
--                    that are bags
-- Tests.antt         runs on a sample chain, a small tree and a toy stream, and instances of the theorems
--
-- How the code is represented. A block is a cell of a heap and a `block_t` its number, so that blocks
-- share their parents as in the code; a null pointer is `none`. A method is a function from the state
-- to a result and the state after it; an exception leaves what was written before it. Hashes, commands
-- and promises are numbers. The calls of the virtual functions, and the promises resolved, are
-- appended to `outbox` in their order; the messages of the network layer are appended to `sends`. What
-- a handler does once a block is delivered and a certificate checked is an operation of its own
-- (`vote_checked`, `relay_checked`, `proposal_delivered`), and the handler leaves a note in `deferred`.
-- The clock is a function from the number of the reading to the microseconds. Heights are `uint32_t`,
-- and counters of the figures `uint64_t`: their sums are taken modulo 2^32 and 2^64. Out-of-range
-- access and null pointers, undefined in the code, are an error of the model, and so is going on with
-- an iterator that `erase` has made invalid. In one place the model goes on where the code is
-- undefined: `vote_relay_handler` reads `hash` after erasing the element it refers to, and the model
-- keeps its value. The walk down a branch has one more unit of fuel than its first block is high, which
-- is enough where direct parents are lower than their children. The levels of the tree have one more
-- unit of fuel than there are replicas, and each level takes at least one. The loop over `rdy_queue`
-- has one more unit than the queue is long, and each round takes a hash out. The loop of `prune` takes
-- a parent out of a block or a block off the stack in each round, so that one unit more than twice the
-- number of all parents is enough.
--
-- Several replicas. Each has a memory of its own, and blocks are the same if their hashes are; that
-- a hash determines the block is the assumption that the memories agree with one tree. The replicas
-- that follow the rules handle proposals, votes, waits, switches, stored blocks and deliveries. A
-- replica that proposes is counted with the faulty ones, since `process_block` signs without the
-- rule of `on_receive_proposal`. No code compares a block's branch with the block that its
-- certificate is of; that blocks stand on that branch is an assumption about the tree.
--
-- What is a parameter. The BLS and secp256k1 libraries and `salticidae::Bits` are the record `Library`,
-- with their documented laws in `BitLaws` and `SumLaws`; `salticidae::DataStream` with the byte order is
-- the record `Wire` with `WireLaws`, and a stream is a list of numbers; `salticidae::get_hash` is a
-- function of the scheme; the number of counted pointers to a block is a function of the state and of
-- the stack of `prune`; what a task of the thread pool finds is a function of the task.
--
-- What is not modelled. The recursion of `async_deliver_blk` through a block's ancestors, the
-- handler of requests for blocks, responses on the wire, the threshold certificates, and logging; of
-- the class `HotStuffCore`, the fields `rdy` and `numberOfChildren`, which it never reads. The timeouts
-- of `PMRoundRobinProposer` are multiples of a unit. The two-step configuration (HOTSTUFF_TWO_STEP) is
-- not modelled. The BLS library under bls/ and include/hotstuff/promise.hpp are copies of other
-- projects.
pub mod Base
pub mod Crypto
pub mod Entity
pub mod Core
pub mod Wire
pub mod Net
pub mod Pace
pub mod Pool
pub mod Tests
