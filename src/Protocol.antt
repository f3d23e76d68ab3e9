-- ===== src/Protocol.antt =====
-- pkg/protocol: the Kafka wire format, read and written.
pub mod Reader
pub mod Writer
pub mod RoundTrip
pub mod Request
pub mod Output
pub mod Response
pub mod Frame
pub mod Received
