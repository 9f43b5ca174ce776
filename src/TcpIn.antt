-- ===== src/TcpIn.antt =====
-- qstack/src/tcp_in.c: what a TCP segment does to its stream.
pub mod Segment
pub mod Events
pub mod Ack
pub mod Payload
pub mod Open
pub mod States
pub mod Packet
pub mod Ident
pub mod Acked
pub mod Invalid
pub mod Duplicate
pub mod Moves
pub mod Tests
