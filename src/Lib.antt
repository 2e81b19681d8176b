-- ===== src/Lib.antt =====
-- Event Pool: a service that follows the events of contracts on several Ethereum chains.
-- A contract is registered by an event signature; a backfill reads its past events from the node,
-- a monitor polls the node for its new ones, and the gRPC server hands new events to the streams
-- that subscribed to them. A token opens a stream, and a disconnect revokes the token.
--
-- The parts, the files that model them, and the code:
--   Ethereum/Log        the records Log and Contract: pkg/ethereum/utils.go, prisma/schema.prisma
--   Ethereum/Signature  ParseEventSignature, ExtractEventName: pkg/ethereum/utils.go
--   Ethereum/Decoder    EventDecoder: pkg/ethereum/event_decoder.go
--   Ethereum/Client     FilterLogs and processEventLog: pkg/ethereum/client.go
--   Ethereum/Subscription  SubscribeToLogs with its goroutine: the same file
--   Listener            EventListener with Start and backfill: internal/listener/listener.go
--   Monitor             Monitor and its calls: internal/monitor/monitor.go
--   Monitor/Poll        a tick of monitorContract, ProcessLogsEvent, processEvent: the same file
--   Monitor/Threads     the calls that release the lock, with those of handleBackfill, as threads of
--                       critical sections: the same file, internal/worker/worker.go
--   Worker              handleBackfill, its task, its loop beside the listener, and the rows it
--                       writes: internal/worker/worker.go
--   Grpc/Scheduler      SessionScheduler: pkg/grpc/session.go
--   Grpc/Streams        StreamEvents and BroadcastEvent: pkg/grpc/server.go
--   Grpc/Forward        the loop of StreamEvents that sends and counts events, and the receipt that its
--                       clean-up schedules: pkg/grpc/server.go
--   Grpc/Handler        the whole of StreamEvents, Close of a connection, VerifySignature: the same file
--   Grpc/Auth           the interceptors, ValidateJWT, DisconnectStream: pkg/grpc/server.go, and
--                       ValidateJWT of internal/jwt/jwt.go
--   Grpc/Http           RequestTokenHandler, GetContractStatus: pkg/grpc/http_server.go, with
--                       GenerateJWT and RequestToken
--   Api/Contracts       RegisterContract, GetContracts: internal/api/contract.go
--   Api/Events          GetEvents: internal/api/contract.go and pkg/grpc/server.go
--   Api/Routes          the routes of Start with the middlewares in front: internal/api/server.go
--   Api/RateLimit       the rate limits: internal/api/rate_limit.go
--   Api/Access          authMiddleware, secretMiddleware, allowCORS: internal/api/server.go
--   Api/Lifecycle       StartMonitor, Start, Stop and GetMonitorStatus: internal/api/server.go, with
--                       Stop of pkg/grpc/server.go
--   Pipeline            a batch of logs on its way from the monitor over the channels to a client:
--                       internal/monitor/monitor.go with pkg/grpc/server.go
--   Producer            RunnerEventProducer: pkg/eventproducer/eventproducer.go
--   Command             RunServe, which puts the parts together: cmd/serve.go
--   Hex                 the hexadecimal codecs: helper/hex/hex.go
--   Types               hashes, addresses, numbers of JSON-RPC: types/types.go, types/encoding.go
--   Helper              JSONNumber, PadLeftOrTrim, HasCommonElement: helper/common/common.go
--   Helper/Keccak       Keccak, Pool, Keccak256: helper/keccak/keccak.go, helper/keccak/pool.go
--   Helper/Progression  ProgressionWrapper: helper/progress/chain.go
--   Helper/Files        CreateIfNotExists, CreatePrivateKey: helper/keystore/keystore.go, with
--                       SetupDataDir, DirectoryExists: helper/common/common.go
-- Prelude, Text and Ranges hold what these share: Boolean tests, lists, maps as association lists,
-- Go's strings functions over byte strings, and runs of block ranges.
--
-- A struct is a record, and a method is a function from the state to the state and its answer. What
-- the node, the database, Redis, the JWT library, Keccak-256 and go-ethereum's ABI answer is
-- a parameter or an input. A mutex's critical section is one step; a call that releases the lock in
-- the middle is several, or the comment of its file says what is left out. Log lines are left out. A context is a number,
-- and its cancellation a member of a list.
--
-- Numbers are natural numbers, and the polling loop's uint64 sums wrap at 2^64. A backfill runs on
-- fuel of one more than the latest block, a tick on the distance to the node's block and one more:
-- both move at least one block on in each round. A round of the scheduler runs on the number of its
-- jobs, and the digits of a number on its value and one more.
--
-- The steps of the producer's goroutines are a schedule, and what other handlers do while StreamEvents
-- runs is a function that its theorem quantifies over.
--
-- Not modelled: the generated code of internal/proto and internal/db; the reading of the configuration
-- and main.go, which pass calls on to libraries; the task queue's own calls in internal/worker/worker.go
-- (NewWorker, Start, Shutdown, EnqueueTask), and those of pkg/ethereum/client.go that only ask the node;
-- helper/ws, which nothing calls; of helper/common, the arithmetic of floats, the conversion of int
-- to int64, and signals.
pub mod Prelude
pub mod Producer
pub mod Text
pub mod Ranges
pub mod Ethereum
pub mod Listener
pub mod Monitor
pub mod Worker
pub mod Grpc
pub mod Pipeline
pub mod Api
pub mod Command
pub mod Hex
pub mod Types
pub mod Helper
