-- ===== src/Router.antt =====
-- src/aodvRouter.h and .cpp: the router. `State` holds its data and what it reaches outside; the
-- other modules hold its methods and, below each, the proofs.
pub mod State
pub mod Invariant
pub mod Table
pub mod Buffers
pub mod Gateways
pub mod Transmit
pub mod Send
pub mod Acks
pub mod Flush
pub mod Handle
pub mod Receive
pub mod Tasks
pub mod Keeping
