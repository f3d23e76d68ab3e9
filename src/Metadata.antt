-- ===== src/Metadata.antt =====
-- pkg/metadata: the topics, offsets and consumer groups of a cluster.
pub mod Types
pub mod Memory
