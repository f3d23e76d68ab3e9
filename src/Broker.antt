-- ===== src/Broker.antt =====
-- The request handlers of the broker, cmd/broker/main.go.
pub mod Types
pub mod Logs
pub mod Produce
pub mod Wait
pub mod Fetch
pub mod Topics
pub mod Partitions
pub mod Configs
pub mod Offsets
pub mod Groups
pub mod Cluster
pub mod Handle
pub mod Server
pub mod Memory
pub mod Opening
pub mod Answers
pub mod Refusals
pub mod Validation
pub mod Waiting
pub mod Monitored
pub mod Durable
pub mod Connection
pub mod Ending
