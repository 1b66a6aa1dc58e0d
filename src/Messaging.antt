-- ===== src/Messaging.antt =====
-- The message system's wrappers (pkg/messaging): direct messages between nodes, the result queues and the
-- JetStream broker. NATS itself is not the program's: whether a call of it succeeds is an argument.
pub mod Direct
pub mod Queue
pub mod Broker
pub mod Laws
pub mod Names
