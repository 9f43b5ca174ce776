-- ===== src/TcpOut.antt =====
-- qstack/src/tcp_out.c and include/tcp_out.h: the queues of streams that have something to send,
-- and the segments that are sent.
pub mod Queues
pub mod Packet
pub mod Flush
pub mod User
pub mod Advertise
pub mod Acks
pub mod Tests
