-- ===== src/Transfer.antt =====
-- File transfer: the sender (filetransfer_chunk.go, filetransfer_stream.go) and the daemon
-- (daemon_filetransfer.go).
pub mod Chunk
pub mod Compress
pub mod Sender
pub mod Disk
pub mod Receiver
pub mod Arrival
pub mod Cutting
pub mod Sending
pub mod Delivery
pub mod Incoming
pub mod Relayed
pub mod Passage
pub mod Handover
pub mod Restating
pub mod Streaming
pub mod Splicing
pub mod Parallel
pub mod Gaps
pub mod Streams
pub mod Sharing
