-- ===== src/Lib.antt =====
-- A verification library for the programs of source/aple: the message module of MiniGUI, the VxWorks
-- semaphores, mutexes and threads below it, its engine for an LCD, the requests between its clients and its
-- server, the instance of PurC, and the thread pool of a homework.
--
-- The program. Each message thread owns a queue, a `MSGQUEUE`, that holds three kinds of messages:
-- synchronous ones, whose senders wait at a semaphore on their stack until they are answered;
-- notifications, in a linked list of blocks; and posted ones, in a circular buffer. Beside these it has a
-- request to quit, a request to repaint and expired timers. Other threads put messages in, under a lock,
-- and wake the owner by `POST_MSGQ`; the owner takes messages out by `PeekMessageEx`, dispatches them to
-- window procedures, and throws the messages of a destroyed window away. On VxWorks the locks, semaphores and
-- threads are MiniGUI's own layer over the tasks and semaphores of the kernel: a table of 64 threads, whose
-- slots the reaper frees. The instance of PurC is a module of another program: it starts the modules of a
-- process and of a thread in order, and cleans them up in reverse.
-- In a build with processes, a client of MiniGUI sends requests over a socket and waits for the reply, between
-- messages that the server sends; the server finds the handler of a request in a table and keeps, for each
-- client, a list of resources that it releases when the client ends. The LCD engine keeps one rectangle of the
-- screen that is to be brought up to date, by a call or by a thread of its own. The thread pool has a queue of
-- tasks under a mutex, and a semaphore that counts them.
--
-- The files, all of source/aple/lecture-5/minigui-message.c where no other file is named:
--   Base: shared names, tests on numbers, lists with native lengths, integers.
--   Msg: the types of minigui-internals.h and minigui-window.h. A pointer to a node is its address, and a
--     list that a head pointer reaches is the list of its nodes.
--   World: the windows, all queues, the calling thread and the tick counter; the inline functions of
--     minigui-internals.h that find the queue of a window; `POST_MSGQ`.
--   Ring: the circular buffer and the scans of `kernel_QueueMessage`. Ring.Window and Ring.Scan have the
--     lemmas on positions and scans, Ring.Contents the list that a buffer stands for.
--   Chain: linked lists at addresses; Chain.Fifo the operations with a last pointer, Chain.Sweep the loop
--     that throws nodes away.
--   Paint: `kernel_CheckInvalidRegion`, `msgCheckHostedTree`, `travel_all_hosted`.
--   Post: `kernel_QueueMessage`, `PostMessage`, `PostQuitMessage`, `__mg_broadcast_message`.
--   Notify: `SendNotifyMessage`, `SendPriorNotifyMessage`, `NotifyWindow`.
--   Send: `DispatchMessage`, `SendSyncMessage`, `SendMessage`, `PostSyncMessage`, `SendAsyncMessage`.
--   Peek: one pass of `PeekMessageEx` as a row of checks, its restart after a timer's callback,
--     and the tests of `HavePendingMessageEx` and `WaitMessage`. Peek.Entry has the calls themselves:
--     `PeekMessageEx`, `HavePendingMessageEx`, `PeekPostMessage`, `BroadcastMessageInThisThread`. Peek.Wait
--     has the loop of `WaitMessage` beside the threads that send, step by step. The other children have the
--     lemmas on what waits, on the timer slots and on the restarts.
--   Throw: `__mg_throw_away_messages`, `ThrowAwayMessages`, `EmptyMessageQueue`.
--   Life: `mg_InitMsgQueue`, `mg_DestroyMsgQueue`, `handle_idle_message`, `std_idle_handler`. Life.Owner has
--     the allocation and the end of a thread's queue.
--   Sem: minigui-vxworks_sem.c. Sem.Count takes the operations one after the other.
--   Mutex: minigui-vxworks_mutex.c. Mutex.Exclusion has threads that share a mutex.
--   Thread: minigui-vxworks_pthread.c and the structures of minigui-vxworks_pprivate.h; an address of a
--     control structure is a number and the memory is a function. Thread.Attrs has the attributes,
--     Thread.Reap `pthread_reap`, Thread.Start `start_minigui_pthread`, Thread.Create `pthread_create`,
--     Thread.Exit `vxpth_pthread_exit`, Thread.Join `pthread_join` and `pthread_detach`, Thread.Keys the keys,
--     Thread.Cancel cancellation, cleanup buffers, scheduling and `pthread_once`. Their children have the
--     lemmas and the results.
--   Instance: purc-instance.c. Instance.Modules has the loops over the modules, Instance.Setup `purc_init_ex`,
--     `purc_cleanup` and the endpoint, Instance.Local the local data and `pcinst_clear_error`.
--   Lcd: minigui-commlcd.c, the dirty rectangle. Lcd.Pixels has the laws of the functions on rectangles,
--     Lcd.Dirty what the rectangle covers, Lcd.Updater the updating thread beside the drawing one, step by
--     step, Lcd.Mode the creation of the device, `COMMLCD_SetVideoMode` and `COMMLCD_VideoQuit`.
--   Wire: words as bytes, and the functions of sockio.c, which is not in the repository, with what is relied
--     on in a connection that works.
--   Server: source/aple/lecture-4/minigui-server.c: the table of handlers, `__mg_handle_request`,
--     `ServerSendReplyEx`. Server.Resources has the resources of a client, with the links in memory,
--     Server.Handlers the handlers for cursors, semaphores, surfaces and layers; the other children have the
--     results.
--   Client: source/aple/lecture-4/minigui-client.c: `ClientRequestEx2`, `process_socket_message`,
--     `check_live`. Client.Delivery and Client.Reply follow a request to its reply. Client.Layers has the
--     calls on layers.
--   Pool: source/aple/homework/po/lecture-4/exercise_1/thread/threadpool.c. Pool.System interleaves the main
--     thread and the workers; Pool.Order has the queue as a list, Pool.Invariant, Pool.Drain and Pool.Ending
--     what holds of the whole.
--   Tests: small worlds for each part, and runs of the operations in them.
--
-- The build that is modelled has virtual windows (_MGHAVE_VIRTUAL_WINDOW), so each thread has its queue.
-- What a function does under the lock of a queue is one step on it; where no threads are interleaved, so is the
-- `POST_MSGQ` behind the lock.
--
-- Fuel. The scans of the buffer take `len` rounds as their bound and the loop that throws posted messages
-- away `len + 1`, since a valid buffer holds fewer than `len` messages; the search for a timer
-- slot takes the number of slots. The loop of a sender over its own synchronous messages takes two rounds
-- more than there are messages; the search for a free slot of the thread table takes 64; and
-- `PeekMessageEx` takes one pass more than there are expired slots. The results below say under which
-- conditions on the procedures and callbacks this is enough. The cleanup handlers of a thread run on a fuel
-- of their own, since a handler may push more; no bound is given for it. The loop of a client that waits for
-- its reply takes one round more than there are messages before the reply, and the loops over the resources of
-- a client take as many rounds as there are resources.
--
-- Parameters: the window procedures, `TranslateMessage`, the licence hook, the capture of the mouse, the
-- invalid regions, the block heap (the address it returns), the timers' callbacks, the calls of the
-- initialisation and the semaphores of the VxWorks kernel, whose documented laws are the
-- records `Counts` and `IsBinary`. For the threads: the states of the tasks, the heap, the place of a control
-- structure, the handlers and destructors, and the numbers of <pthread.h>. For the instance: the callbacks of
-- the modules, of which the value returned and the change of the tables of atoms are kept, the tests and the
-- assembly of names, and the tables of atoms, whose documented laws are the record `AtomLaws`. For the LCD:
-- the calls of the LCD, and the functions on rectangles, whose documented laws are the record `Laws`. For
-- client and server: the sockets, whose documented laws are the record `Works`, the bytes of a `MSG`, the
-- handlers and the request ids. The tasks of the pool submit no tasks themselves. A size of `size_t` has 8
-- bytes and an `int` 4, the lowest first.
--
-- Not modelled: the unlocked stores into `value` of threads that are in the functions of minigui-vxworks_sem.c
-- at once (the semaphores of the interleavings are taken as atomic), the waiting loop on the semaphore in
-- `PeekMessageEx`, `select` in the idle handler, traces, a build without virtual windows, the loops of
-- `pthread_join` as such (its parts before and behind a wait are), the variables, exceptions and error
-- messages of an instance, the handlers of the server that only pass their bytes on to another file, the idle
-- handler of a client, the float that the thread pool adds up, and every other file of the repository: the
-- samples and the other homework.
pub mod Base
pub mod Msg
pub mod Ring
pub mod Chain
pub mod World
pub mod Paint
pub mod Post
pub mod Notify
pub mod Throw
pub mod Peek
pub mod Send
pub mod Life
pub mod Sem
pub mod Mutex
pub mod Thread
pub mod Instance
pub mod Pool
pub mod Lcd
pub mod Wire
pub mod Server
pub mod Client
pub mod Tests
