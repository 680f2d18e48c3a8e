-- ===== src/Lib.antt =====
-- The server exercises: their timer containers, chat servers, echo and web servers, clients and
-- semaphores, and what holds of them.
--
-- The repository holds the programs of a book on Linux servers. Its own code stands in the files at
-- the root. Three of the programs close idle connections by timers: TimeWheel.cpp, LST_Timer.cpp and
-- TimeHeap.cpp each run an event loop over epoll, with a container of timers of their own. A new
-- connection adds a timer; SIGALRM, whose handler writes a byte to a pipe that the loop reads, makes
-- the loop call `tick`, which calls back the timers that have expired; the end of a connection
-- deletes its timer. ShmChat.cpp is a chat server with a child process for every client: the parent
-- accepts connections, learns of children that have ended by SIGCHLD, and passes a message from one
-- child on to the others. This library models the containers, that parent, and what its children do
-- with the memory they share. ChatServer.cpp, Echoserver.cpp, Signal.cpp, LinuxWebWritev.cpp and the
-- clients that go with them stand alone, and are modelled whole, as trees of system calls. seml.cpp
-- and IPC_Private.cpp are processes that share a semaphore, and are modelled under a scheduler:
--
--   * Base: tests on numbers, and `Run`, an execution that returns, does what C++ leaves undefined
--     (`fault`), or exceeds the model's fuel.
--   * Memory: the store of linked nodes, with `new`, `delete` and accesses through pointers. NULL is
--     0. An access through NULL or to a node that is not live is a fault, so that a run that returns
--     makes none. Memory/Chain has doubly linked chains and what writes do to them.
--   * Callback: a call through `cb_func`, as an entry of a log. The programs' callbacks close a
--     connection and do not touch the container.
--   * TimeWheel: TimeWheel.h. `TwTimer` and `TimeWheel` are `tw_timer` and `time_wheel`, and
--     `add_timer`, `del_timer` and `tick` have the source's names. `push_slot`, `visit` and
--     `drop_fired` are parts of `add_timer` and `tick`. `arm`, and `start` in TimeWheel/Lifetime, are
--     what TimeWheel.cpp does for a new connection; `destroy` is the destructor. TimeWheel/Invariant has the abstract wheel, a
--     list of timers for each slot, which the theorems refine.
--   * TimerList: LST_Timer.h. `UtilTimer` and `TimerList` are `util_timer` and `sort_timer_lst`;
--     `add_timer_behind` is the private `add_timer`. TimerList/Invariant has the list that the links
--     stand for.
--   * TimeHeap: TimeHeap.h. `HeapTimer` and `TimeHeap` are `heap_timer` and `time_heap`; `new_heap`
--     and `new_heap_from` are the two constructors. `disconnect` is what TimeHeap.cpp does with the
--     heap at the end of a connection. TimeHeap/Valid has the invariant: the timers are live and
--     distinct, they fit into the array, and none expires before its parent. TimeHeap/Items counts
--     the entries of an array, so that an array is compared as a multiset.
--   * ShmChat: ShmChat.cpp. `Client` is `client_data`, and `Server` has `users`, `user_count` and
--     `sub_process`. `accept_user`, `handle_signals` and `relay` are the three branches of the
--     event loop in `main`; `reap` is a round of its loop over `waitpid`. ShmChat/Invariant: the
--     mapping from children to users leads from each user's child to that user.
--     ShmChat/Reachable: the states of the event loop, as a relation with a step for each branch.
--     ShmChat/Joined: connections to a new server and the children started for them. ShmChat/Shared: the
--     index that `main` gives to a new child. ShmChat/Start and ShmChat/Opened:
--     the system calls before the event loop. ShmChat/EventLoop and ShmChat/Running: the event loop,
--     given what the calls of each event return, and `del_resource`.
--   * ShmChild: ShmChat.cpp's children, `run_child`. `read_client` and `read_parent` are the two
--     branches of its loop; the shared memory is a function from addresses to bytes, and an
--     access behind its `USER_LIMIT * BUFFER_SIZE` bytes is a fault.
--     ShmChild/EventLoop has the loop.
--   * Process: system calls. A program is a `Prog`, a tree that branches on what the kernel
--     answers; `fault` is what C++ leaves undefined. Process/Kernel: a `Kernel` is what is remembered
--     of the calls made, the calls that are allowed, and what the kernel promises to answer.
--     `Throughout` says that, whatever the kernel answers within its promises, no branch faults or
--     runs out of fuel, and every call is allowed. In Process/Files, calls are allowed on open
--     descriptors only; `Always` is `Throughout` there. Process/Epoll adds the descriptors that epoll
--     watches, and promises that events are on these, and on each at most once; `epoll_below` also has
--     every descriptor below a limit, RLIMIT_NOFILE.
--     Process/Exec has the calls that a program makes for a given list of answers, and how it stands
--     then.
--   * ChatServer: ChatServer.cpp. `Chat` has `users`, `fds` and `user_count`. `dispatch` is the chain
--     of tests in the loop, `serve_new`, `serve_leave`, `serve_data` and `serve_write` its branches.
--     ChatServer/Table has the invariant of the table, Accepting, Leaving, Writing and Serving what
--     the parts of the loop do to it, and Delivery what a message changes.
--   * ChatClient: ChatClient.cpp. `show_data` and `pass_on` are the branches of its loop.
--     ChatClient/Relaying has a kernel that remembers the bytes that go through the pipe, and
--     ChatClient/Forwarding what the client does with them.
--   * TimerServer: the event loop that TimeWheel.cpp, LST_Timer.cpp and TimeHeap.cpp repeat, over a
--     record `Container` of what it does with its timers. TimerServer/Containers has the three
--     containers, and `wheel_main`, `list_main` and `heap_main`, the three programs. For TimeWheel.cpp
--     TimerServer/Clients has the invariant of the loop: every client has an open descriptor and a
--     timer of its own in the wheel. TimerServer/Marked says which events of a batch belong to clients
--     that are still there; Timeouts, Leaving, Joining and Handlers what the parts of the loop do to
--     both; and Running goes through the whole program. For LST_Timer.cpp TimerServer/Extending has
--     what data of a client does to the list.
--   * EchoServer: Echoserver.cpp. `serve_new`, `serve_udp` and `serve_tcp` are the branches of its
--     event loop.
--   * Line: `s_gets`, which the clients repeat, on a list of the characters to be read.
--   * EchoClient: TcpEchoClient.cpp, UdpEchoClient.cpp and SignalClient.cpp.
--   * SocketExercises: LinuxChangeTcpReceiveBuffer.cpp, SetConnectTimeO.cpp and LinuxGetDayTime.cpp.
--   * SignalServer: Signal.cpp. `on_signal` is the `switch` over the signals.
--   * WebServer: LinuxWebWritev.cpp. `header_ok` and `header_error` are the bytes that the chains of
--     `snprintf` write.
--   * Semaphore: seml.cpp, for any number of processes and every schedule.
--   * IpcPrivate: IPC_Private.cpp, the parent and its child.
--
-- Numbers: timeouts, times, rotations and sizes are natural numbers; only the timeout that TimeWheel.h
-- tests for being negative is an integer. `int` and `time_t` do not overflow at the sizes that the
-- programs use (65535 connections, times in seconds), and that is not modelled. For the containers,
-- what `time(NULL)` returns is an argument, as is the address that `new` returns, which the theorems
-- take to be neither NULL nor live; in TimerServer both are answers of the kernel.
--
-- Loops: the loops over linked nodes take fuel from the caller, and the theorems hold for every fuel
-- above the number of nodes. The loops of ShmChat run as often as there are users or children. The
-- loops of the heap take `cur_size + 1`, which the definitions supply. The loops of the programs over
-- `Process` may run for ever: their `rounds` bound how much of a run is looked at, and what holds for
-- all `rounds` holds of every part of a run. The loop of ChatServer.cpp over its entries has fuel of
-- its own, for which 18 is enough.
--
-- Not modelled: what a child of ShmChat.cpp opens and closes before its loop, what the system
-- calls do, whose results are arguments and whose effects ShmChat logs, `printf`, the exercises for
-- Windows, which are straight sequences of calls, SigUrgOutOfBand.cpp, which never gets past an empty
-- loop, and the copy of libevent in src/ and include/.
-- `adjust_timer` of LST_Timer.h, which no program calls, is modelled without a theorem.
pub mod Base
pub mod Memory
pub mod Callback
pub mod TimeWheel
pub mod TimerList
pub mod TimeHeap
pub mod ShmChat
pub mod ShmChild
pub mod Line
pub mod WebServer
pub mod EchoServer
pub mod EchoClient
pub mod SignalServer
pub mod ChatServer
pub mod ChatClient
pub mod SocketExercises
pub mod TimerServer
pub mod Semaphore
pub mod IpcPrivate
pub mod Process
