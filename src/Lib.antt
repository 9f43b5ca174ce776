-- ===== src/Lib.antt =====
-- qstack is a user-level TCP stack: stack threads receive packets from a driver, put their payload
-- into the receive buffers of streams, and send what applications put into send buffers. Threads
-- talk over circular queues with one producer and one consumer each.
--
-- Which file models what, with paths from the root of the repository:
-- Cirq: the circular queues of tools/src/include/circular_queue.h, with the array in the queue
--   itself (dir_cirq_*) or behind a pointer (cirq_*). Cirq/Fifo is their specification, Cirq/Spsc
--   the two functions cut into their shared accesses, Cirq/Pool the pool of arrays
--   (fast_cirq_mempool_*, here mempool_*), Cirq/Scan the search.
-- N21: the queues with several producers of tools/src/include/n21_queue.h.
-- Seq: the comparison of sequence numbers, TCP_SEQ_* of qstack/src/include/protocol.h.
-- Mbuf: packet buffers and linked lists of them, qstack/src/include/mbuf.h; Mbuf/Queue is
--   qstack/src/include/mbuf_queue.h.
-- SendBuff and RecvBuff: qstack/src/tcp_send_buff.c and tcp_recv_buff.c with their headers.
-- Timer: qstack/src/include/timer.h, with its walks in Timer/Check, and the part of
--   tcp_stream_destroy of qstack/src/tcp_stream.c that concerns the timers' lists. Calls of other
--   components are recorded in order.
-- TcpOptions: ParseTCPOptions of qstack/src/include/tcp_in.h, and the two functions of
--   qstack/src/tcp_out.c that say and write the options of a segment.
-- TcpStream: qstack/src/tcp_stream.c. TcpStream/Conn is `struct tcp_stream` with its stack: one
--   stream at a time is taken out of the timers' map, and written back around a function of timer.h.
-- TcpOut: qstack/src/tcp_out.c and tcp_out.h: the queues of streams, one segment (TcpOut/Packet),
--   the sending buffer (TcpOut/Flush) and the application's call (TcpOut/User).
-- TcpIn: qstack/src/tcp_in.c: acknowledgements, payload, events, a handler for each state, and
--   process_tcp_packet (TcpIn/Packet). TcpIn/Moves is the diagram of the states as a step relation.
-- Qepoll: qstack/src/qepoll.c and qepoll.h: the channels between stacks and applications, with a queue
--   of events for each priority. Add is CreateQevent and AddTimeEvent, Wait the three waits, Init
--   what is allocated and qepoll_ctl, Fetch the events an application has fetched. Each loop over
--   a queue has its size for fuel. A stack and an application do not run at the same time.
-- Api: qstack/src/api.c: the application's calls on sockets, over Sockets, N21 and RecvBuff; Streams
--   are those on a stream.
-- Icmp: qstack/src/icmp.c: echo requests and replies, with the IP header that
--   generate_ip_packet_standalone of qstack/src/ip_out.c writes and the Ethernet header of
--   eth_hdr_generate of qstack/src/eth_out.c. A packet buffer is taken to have room for its message.
--   What is delivered of a frame is not modelled, only what the driver is given.
-- Arp: qstack/src/arp.c and arp.h: the tables of hardware addresses and the requests for them.
-- Sockets: qstack/src/socket.c and socket.h: the pools of free sockets, one for each core.
-- Common: names, lists, Boolean tests and words that all of them share.
--
-- A function of the model has the name of the C function. An update of an object behind a pointer
-- becomes a new value of it in the result; memory that functions share is passed on as a store. A
-- number of w bits is a natural number with `% 2 ^ w` where C wraps it. A pointer is a number and
-- NULL is 0. `none` stands for a call that ends the process (TRACE_ERR, TRACE_EXIT), for one that
-- writes over memory the model does not describe, and for a loop that has run out of fuel; where
-- fuel is an argument, the theorems say how much is enough, which is more than the length of the
-- list it walks.
-- A queue of n words is given fuel n + 1, since it holds fewer than n. The walks of the timers' lists
-- are recursion on the list.
--
-- The model is of one configuration: SIMPLE_HEADTAIL, DIRECT_CIRCULAR_QUEUE, N21Q_DEQUEUE_STRONG and
-- PRIORITY_RECV_BUFF on, DPDK_RTE_RING off. Counters, traces and timestamps are left out. What
-- the stack reads elsewhere (the configuration, the listener, the socket that socket_alloc returns,
-- what the application does meanwhile) is the record Env, whose field fuel bounds the loops over
-- lists of packets; the record of a stack holds, newest first, the calls of the flow table, the
-- socket table, the event queues (which Qepoll models apart from this) and the driver.
--
-- Not modelled are the hash tables, the flow groups, the packet filter, the dispatch of packets by
-- protocol, the coroutines, the core loops and the applications; the loops of tcp_out.c over
-- several streams are modelled for one stream's turn. A call of send_tcp_packet_standalone ends the
-- process, as the source does. The drivers only call DPDK, and the configuration is an argument.
pub mod Api
pub mod Arp
pub mod Cirq
pub mod Common
pub mod Icmp
pub mod Mbuf
pub mod N21
pub mod Qepoll
pub mod RecvBuff
pub mod SendBuff
pub mod Seq
pub mod Sockets
pub mod TcpIn
pub mod TcpOptions
pub mod TcpOut
pub mod TcpStream
pub mod Timer
