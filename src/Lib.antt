-- ===== src/Lib.antt =====
-- Formal model of UtilityEngine, a C++ library for network services: buffers, object pools, message
-- framing, task dispatch and sessions. It models the code under UtilityEngine/ that decides
-- something; the calls of the system (sockets, epoll, threads) stay outside.
--
-- How the parts interact. A session receives bytes into a buffer; the framing over that buffer
-- says when a message is whole; the dispatcher hands it to a worker of a thread pool, which calls
-- the handler; a responder keeps its sessions in an object pool. `md5` and the conversions to and
-- from hexadecimal stand beside them.
--
-- Which file models which part:
--   Base       Boolean tests, lists, flat memory, bit operations; no code of its own
--   Rotative   rotative_buffer: UtilityEngine/include/mem_rotative_buffer.hpp,
--              UtilityEngine/src/mem_rotative_buffer.cpp, and the cursor of
--              UtilityEngine/include/mem_message.hpp. One record holds the members; a pointer is its
--              offset into the array. `Rotative.Contents.contents` is the abstract view, the bytes
--              that are readable, in order.
--   Buffer     buffer_iface of UtilityEngine/include/mem_buffer.hpp as an interface: a store, a fetch
--              and their laws. Rotative.Traffic and Stream.Traffic fill it; Buffer.Traffic and
--              Buffer.Transfer use it, the latter for the loop of session_wrap::send.
--   Factory    data_factory, UtilityEngine/include/mem_data_factory.hpp and .inl, the form whose
--              size is given at run time: init, clear, malloc, free, the iterator.
--   Chunks     data_factory_ex of the same two files, the pool that grows by pools of Factory, and
--              the allocator of its chunks whose cache has a size given at run time
--   Allocator  the other two allocators of these files: with a cache of a fixed size and with none
--   Hex        UtilityEngine/include/com_hex_caster.hpp
--   Md5        UtilityEngine/src/com_md5.cpp, with the width of `unsigned long` as a parameter
--   Parser     UtilityEngine/include/msg_message.hpp: the framing by length, by a final 0, and by a
--              delimiter; `Parser.Length.received` is the loop that handle_wrap and post_request of
--              UtilityEngine/include/msg_controler.hpp make together.
--   Controller UtilityEngine/include/msg_controler.hpp over the framing by length and Rotative: the
--              task that is dispatched, what a worker makes of it, and the bytes that come in between
--              (process_recv of UtilityEngine/include/net_session.inl). Controller.Orderly has the
--              modes of a session's messages.
--   Handlers   UtilityEngine/include/msg_handler_manager_map.hpp and
--              UtilityEngine/include/msg_handler_manager_deque.hpp. Handlers.Unordered is the table
--              without the order of its pairs.
--   Pool       UtilityEngine/include/com_thread_pool.hpp: each stretch of a thread between two locks
--              is an event, and a run is any sequence of events.
--   Stream     UtilityEngine/src/mem_stream_buffer.cpp: the operations of the chain of nodes
--   Task       UtilityEngine/src/task_object.cpp, UtilityEngine/src/task_dispatcher_balance.cpp and
--              UtilityEngine/src/task_dispatcher_pool.cpp, over Pool
--   Session    UtilityEngine/src/net_session.cpp and UtilityEngine/include/net_session.inl, over two
--              buffers of Rotative; the calls that leave the session are recorded in order.
--   Epoll      UtilityEngine/src/net_io_service_epoll.cpp: what it makes of the system's answers,
--              which are arguments
--              (Epoll.Accepting: the connections that a server of Responder accepts)
--   Iocp       UtilityEngine/src/net_io_service_iocp.cpp: the operations of a session that are under
--              way, and what it makes of their ends (Iocp.Accepting: those of a server)
--   Socket     UtilityEngine/src/net_socket.cpp: connect, bind and close on the system's answers
--   Responder  UtilityEngine/include/net_responder.inl, over Factory
--   Requester  UtilityEngine/include/net_requester.inl: the states of a client
--
-- Conventions. An assertion that fails, or an access out of bounds where the model has one, is
-- `none`. Unsigned arithmetic that may wrap round is written with the modulus. Code behind a mutex is
-- one step; where the source works outside of its lock the step is cut there, in Pool, in
-- Iocp.Locks (the sending of a session, between any two calls of its buffer) and in Controller.Turns (the
-- turn of a worker, around the handler's reads and between the two parts of commit). `comfirm` with
-- the dispatch behind it is one step throughout, and so is an arrival; the other definitions of
-- Controller and Iocp take a whole turn, packet or completion as one step. Memory holds bytes as
-- numbers; the theorems that need them below 256 say so.
--
-- Fuel. `advance`, `bisect` and `visit` of Factory run on the size of the pool; `send_loop` of
-- Session on a turn for each byte of the packet; `wait_loop` of Task on two turns; `scan` of Parser on
-- fuel that the caller gives, and `shift` on the square of the delimiter's length; `put_all` of
-- Buffer on a turn for each byte and `take_all` on one more; `search` of Chunks on half the number of
-- chunks. The theorems below say for which fuel there is a result, where they are about such a loop.
--
-- Not modelled: what only passes its arguments to the system, the logger, the application's main
-- loop, the MySQL wrapper and the copies of third-party headers. Still to be modelled: the service
-- manager, the bit searches of com_numeric_digit.hpp, and the stop of dispatcher_balance.
pub mod Allocator
pub mod Base
pub mod Buffer
pub mod Chunks
pub mod Controller
pub mod Epoll
pub mod Factory
pub mod Handlers
pub mod Hex
pub mod Iocp
pub mod Md5
pub mod Parser
pub mod Pool
pub mod Requester
pub mod Responder
pub mod Rotative
pub mod Session
pub mod Socket
pub mod Stream
pub mod Task
