-- ===== src/Grpc.antt =====
-- pkg/grpc: the streams of the gRPC server, its tokens, and its HTTP endpoints, and its scheduler.
pub mod Streams
pub mod Auth
pub mod Http
pub mod Scheduler
pub mod Forward
pub mod Handler
