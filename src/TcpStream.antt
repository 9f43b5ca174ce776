-- ===== src/TcpStream.antt =====
-- `struct tcp_stream` of qstack/src/include/tcp_stream.h with what the stack keeps beside it, and
-- qstack/src/tcp_stream.c. The fields of a stream that the timers use are those of `Timer.Stream`:
-- a stream that is being processed has them out of the timers' map, into which they are written
-- back before a function of timer.h runs. `none` is a call that ends the process, or a loop that
-- has run out of fuel.
pub mod Conn
pub mod Keep
pub mod Life
pub mod Ends
pub mod Samples
pub mod Tests
