-- ===== src/Lib.antt =====
-- uvexec: senders and receivers (stdexec) on top of libuv's event loop.
--
-- The program. A loop (src/execution/loop.cpp) runs libuv; any thread hands it operations through
-- a lock-free list. Every asynchronous algorithm is an operation state that starts a libuv handle or
-- request, is called back by libuv on the loop's thread, and completes its receiver with a value, an
-- error, or stopped. A stop request, from any thread, reaches the operation as another operation of the
-- loop, TStopOperation, which races with libuv's callback.
--
-- The files. Base has the helpers; Uv the error numbers of libuv (src/uv_util/errors.cpp) and what a
-- receiver is completed with; Uv.Handle a libuv handle as its user sees it.
--   StopOperation    include/uvexec/execution/loop.hpp: TLoop::TStopOperation.
--   OperationList    src/execution/loop.cpp: TOperationList::PushBack and Grab as the atomic steps of
--                    threads that interleave (Push), the loops of Grab and of ApplyOperations (Grab),
--                    and whole runs (Runs).
--   Loop             src/execution/runner.cpp, and TLoop::run, run_once, drain and RunnerSteal of
--                    src/execution/loop.cpp, as interleaved steps of threads: who is in uv_run
--                    (Exclusive, Exclusion), how the others are woken up (Wakeup), and when a thread
--                    of sync_wait returns, or does not (Waiting, Steal, Finish, Quiet, Stale).
--   IntrusiveList    include/uvexec/util/intrusive_list.hpp, over a store of nodes by address.
--   OneShot          the abstract machine of an operation that waits for one event of a handle.
--   Timer, Signals   include/uvexec/algorithms/after_op_state.hpp and upon_signal_op_state.hpp:
--                    Schedule is the scheduled operation, Sender the adaptor; both fill its interface.
--   Transfer         the abstract machine of an operation that libuv calls back many times.
--   Stream, Datagram include/uvexec/algorithms/read_some_op_state.hpp, read_until_op_state.hpp and
--                    receive_op_state.hpp; all fill its interface.
--   Request          the receivers of one request: write_receiver.hpp, send_receiver.hpp,
--                    shutdown_receiver.hpp, connect_receiver.hpp and close_receiver.hpp; Buffers is
--                    how src/uv_util/reqs.cpp hands buffers to libuv.
--   Scope            include/uvexec/algorithms/connect_to_op_state.hpp, accept_from_op_state.hpp and
--                    bind_to_op_state.hpp: the operations that own a socket while a body runs.
--   AsyncValue       include/uvexec/algorithms/async_value_op_state.hpp: the operation that owns a value.
--   LazyConstruct    include/uvexec/util/lazy.hpp: TLazyConstruct.
--   Sockets          the constructors of src/sockets and of TLoop, and what they leave when they throw.
--   Senders          include/uvexec/interface, and the sender classes of include/uvexec/algorithms: the
--                    customisation points (OnSender, OnValues, Closures), their packages (Points), the
--                    overloads of the loop's domain (Dispatch), the classes (Classes), and what
--                    connecting a chain of them makes and which completions it declares (Connect), and where that
--                    compiles (Compiles).
--   Wrappers         src/uv_util/safe_uv.c (SafeUv) and src/uv_util/reqs.cpp (Reqs): the calls of libuv
--                    that the wrappers make, with the pointers converted to the types of libuv; an address is a number,
--                    which a conversion keeps.
--   ErrorCode        include/uvexec/execution/error_code.hpp and src/execution/error_code.cpp.
--   EchoUv           examples/echo_uv.c: Server is one connection of the server, with the buffer that all
--                    connections read into and the blocks of the heap that it has; Client is all
--                    connections of the client, with their statistics.
--   EchoUvexec       examples/echo_uvexec.cpp: EchoClient, its numbers beside those of the client of EchoUv
--                    (Same), and a connection of its server (Server).
--   Meta             include/uvexec/meta: IndexOf, IsIn and TFnParameterType.
--   Schedule         include/uvexec/algorithms/schedule_op_state.hpp.
--   SyncWait         include/uvexec/execution/sync_wait_receiver.hpp; Call is the whole call of sync_wait,
--                    over the threads of Loop.
--   Listener         include/uvexec/sockets/tcp_listener.hpp and src/sockets/tcp_listener.cpp.
--
-- How an operation is modelled. Its state is a record of the source's fields with what can be seen of
-- it from outside: the completions of its receiver, and the calls on its handle. Each function of the
-- source is a function on that record. A step function says which of them the environment can cause:
-- the start, a callback of libuv, a stop request at any time, the loop's application of a stop
-- operation that was scheduled. The properties hold after every sequence of such events. What
-- libuv answers is an argument of the event; that `uv_timer_init` and `uv_signal_init` succeed, and that
-- libuv passes a NULL address only with an error or with nothing, are hypotheses where they are needed,
-- and so is that the construction of an operation state does not throw. exec::finally of stdexec is
-- taken as documented: it keeps the body's result while the socket is closed.
--
-- How senders are modelled. A sender is an expression, Senders.Syntax.Sender, in which a class that
-- adapts a sender holds it; a C++ type that decides which overload is called is a constructor, and an
-- overload that no call fits is `none`. make_completion_signatures of stdexec is a parameter with the
-- law that stdexec documents, and so are customisations for a tag alone, which a program may add. What
-- is documented of stdexec's domains is part of the definitions: the default domain leaves a package
-- as it is, and connect transforms a sender by the domain of the receiver's environment. Schedulers
-- other than TLoop's are senders without a scheduler here.
--
-- How libuv and the heap are modelled in EchoUv. What libuv and malloc answer is an argument of the
-- event; malloc answers with the address of no live block. The server's other connections take the
-- shared buffer away and leave a new one, at any time between two callbacks.
--
-- Bounds. An address is a number, and nullptr is 0. std::size_t wraps at 2 ^ 64 in ReadTotal. The
-- loops of Grab and of ApplyOperations run on fuel; any fuel above the number of listed operations
-- is enough. PendingConnections is an integer without an upper bound, since it is at most the number of
-- connections that libuv reported. The number of buffers that libuv is given wraps at 2 ^ 32.
--
-- Not modelled: libuv and stdexec, which are not part of the repository; exception specifications and
-- type constraints that choose no implementation; of the examples, UvEchoServer itself, how the
-- server of echo_uvexec.cpp accepts connections, the messages and the other programs; the tests; moves and the lifetimes of C++
-- objects, but for what is constructed and destroyed in AsyncValue and LazyConstruct; memory orders, since the steps of the threads are interleaved. In
-- Loop, a sender that a thread waits for completes in uv_run or where it is started, as one does whose
-- completion scheduler is the loop's.
pub mod AsyncValue
pub mod Base
pub mod Uv
pub mod StopOperation
pub mod OneShot
pub mod Timer
pub mod Signals
pub mod Transfer
pub mod Stream
pub mod Datagram
pub mod Request
pub mod IntrusiveList
pub mod OperationList
pub mod Listener
pub mod Scope
pub mod Senders
pub mod Sockets
pub mod LazyConstruct
pub mod Wrappers
pub mod EchoUv
pub mod EchoUvexec
pub mod Meta
pub mod ErrorCode
pub mod Loop
pub mod SyncWait
pub mod Schedule
