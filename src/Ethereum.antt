-- ===== src/Ethereum.antt =====
-- pkg/ethereum: logs, event signatures, the decoder of logs, and the client of a node.
pub mod Log
pub mod Signature
pub mod Decoder
pub mod Client
pub mod Subscription
