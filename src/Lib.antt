-- ===== src/Lib.antt =====
-- A verification library of the game client of easygametools (game_client/game_client).
--
-- The client logs in to a directory server over HTTP, finds or registers a game there, and talks to the
-- other clients of the game over RakNet with protobuf messages. Its parts, and the files that model them:
--
--   Xml        User.cpp, UserList.cpp, ServerGame.cpp, GameList.cpp: the loaders of the documents that the
--              directory server sends. One function per case of a loader's switch (`game_text`,
--              `game_element`), one per round (`game_node`) and one per loop (`game_loop`). Also
--              IrrCharArrayReaderSource.cpp, from which the parser reads (Xml/Source).
--   Web        Web.cpp, Web.h: the URL codec (Web/Codec), the variables of a form (Web/Form), the loop that
--              reads a response (Web/Body), and `WebForm::sendRequest` (Web/Request).
--   Config     Config.h: the table of configuration variables, and the loader of config.xml (Config/Loader)
--              with the documents that it reads (Config/Document).
--   Log        Logger.h, Logger.cpp, RollingFileAppender.h: the loggers and their file (Log), their levels
--              (Log/Levels), how ROG.cpp configures them (Log/Configure, Log/Overrides), what they write
--              (Log/Lines), and all that can be done with them (Log/Standing, Log/Life).
--   Directory  DirectoryClient.cpp, DirectoryClient.h: the calls of the directory server, built from Web,
--              Xml and Config as the source builds them.
--   Protocol   ProtocolFactory.h and ../protoc/*.proto: the messages (Protocol), and the packets that
--              GameClient.cpp makes of them (Protocol/Packets).
--   Game       GameClient.cpp, GameClient.h, Player.h, ClientFuture.h, GameClientEvent.h: the state
--              (Game/State), what is sent (Game/Network), the handlers that the thread pool runs
--              (Game/Handlers), the dispatch of packets to them (Game/Dispatch), how a client starts,
--              hosts or joins a game and stops (Game/Lifecycle), the smaller calls (Game/Client), the
--              network thread (Game/Loop), and the tasks of DirectoryUpdateTask.h and
--              DirectoryAdoptTask.h (Game/Tasks).
--   Memory     Reference.h, Reference.cpp: the counted objects of the client. The store of objects and of
--              the handles that point to them (Memory), the collector (Memory/Collector), what a sound
--              memory is (Memory/Sound), and the operations on one (Memory/Counting, Releasing, Handles,
--              Allocation, Creation); its clients (Memory/Reachable, Memory/Safety), and the end of the
--              program (Memory/Collection).
--   Pool       ThreadPool.cpp, RunQueue.h, Semaphore.h: the pool and its workers (Pool), its promise to
--              its clients (Pool/Refinement), the queue (Pool/Drain), its size (Pool/Growth), and its
--              critical sections (Pool/Sections, Pool/Locks) and that of a worker (Pool/Delivery). The state
--              of Pool counts how often a worker leaves taskQueueSem when it is not in it, which has no other
--              effect in Pool, and has no deliveryLock, which is the matter of Pool/Delivery alone.
--   Threads    Thread.h, Thread.cpp, ThreadEvent.h, Runnable.h: the threads and the table of those that run
--              (Threads), the numbers in it (Threads/Tables, Threads/Ids), the steps of the threads (Threads/Steps), the end
--              of all (Threads/Ending, Threads/Collecting), the current one (Threads/Current), and one that
--              is started twice (Threads/Twice).
--   Clock      DateTime.h, DateTime.cpp: the clock of milliseconds.
--   Shutdown   ROG.cpp: `ROGDestroy`, over Threads, Memory and Log.
--   Http       Http.cpp: the status and the body of a response.
--   Base       what the modules share: lists, tables, texts, decimal numbers, results.
--
-- State and errors. A function that can throw or has undefined behaviour returns a `Result`, whose
-- errors name the exception or the fault (`buffer_overflow`, `null_pointer`, `unterminated`,
-- `uninitialised`, `dangling`, `not_owner`). An operation of the game client is an `Action`: it takes
-- the state and returns the result and the state, also where it throws. A pointer that can be NULL is
-- an `Option`. A table that makes an entry when it is read (`AVLHashT::operator []`) returns itself
-- changed.
--
-- How the parts meet. Game and Directory have the value that an `Object<T>` points to in its place: the
-- counts are the matter of Memory alone. Game records the tasks that it gives to the thread pool, and runs
-- them one at a time; Pool takes a task as a number, as Memory takes an address. `malloc` gives an address
-- that no object has.
--
-- Parameters. The XML parser (a function from the bytes to the nodes), WinINet (`Internet`, what it
-- answers to each request), what RakNet answers at a start (`Rak`) and the serialisation of messages
-- (`Wire`, with the law that parsing undoes printing) are libraries: arguments of the definitions that
-- use them, as what the system makes of a new thread (`Begun` of Threads, and what `Thread::start` gives
-- in Pool), how a task of the pool ends (`TaskEnd`), what other threads do while one waits and what the
-- clock of the system says are too. The calls of RakNet, the tasks for the thread pool and the events for
-- the listener are recorded in the state in order.
--
-- Numbers. `long` and `int` have 32 bits, and `atol` stops at the bounds of a `long`, as Microsoft's
-- does. The sum of two DWORDs and the times of the clock are taken modulo 2 ^ 32, a port that goes to WinINet
-- modulo 2 ^ 16, and a `long` in a `uint64` of a message modulo 2 ^ 64. A `char` is signed, and its value is
-- written as that of the byte.
--
-- Fuel. The loops that hand the reader on to one another (`game_loop`, `user_list_loop`,
-- `game_list_loop`) run on the number of nodes that are left, which is enough since every round takes a
-- node. The search for a port has 2 ^ 16 rounds, one for each port, after which the ports repeat. The
-- network thread runs over a list of rounds, which ends where the thread is signalled. The loops of the
-- collector end with their lists, and a worker's with the turns that it is given. The loop that waits for
-- the running threads has a turn for each of them.
--
-- Not modelled: the locks but those of the thread pool and of a `ClientFuture` (Game/Future), and among
-- those of the pool `submittedSem`; the floating-point `getFloat`; a file rog.log that cannot be opened;
-- a constructor that throws behind that of `Reference`, which leaves a dead reference in liveObjects;
-- what a throw out of the pool leaves; the application
-- around the client; the libraries in the repository (protobuf, opencontainers, lib64, base64, tree.h);
-- and the directory server itself, which is another program.
pub mod Base
pub mod Xml
pub mod Web
pub mod Config
pub mod Log
pub mod Directory
pub mod Protocol
pub mod Memory
pub mod Clock
pub mod Threads
pub mod Pool
pub mod Http
pub mod Game
pub mod Shutdown
