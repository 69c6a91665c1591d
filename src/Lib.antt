-- ===== src/Lib.antt =====
-- A key-value store that is served over the network and replicated along a chain of servers: its
-- table, its locks, its messages and the server's handling of requests.
--
-- The program. A client (source/table_client.c) calls a remote table (source/client_stub.c), which
-- packs each call in a message (sdmessage.proto), sends it over a socket (source/network_client.c,
-- source/message.c) and unpacks the answer. A server (source/table_server.c,
-- source/network_server.c, source/server_thread.c) runs a thread for each connection, which gives
-- each request to `invoke` (source/table_skel.c). That works on a hash table of sorted linked lists
-- (source/table.c, source/list.c, source/entry.c, source/data.c) under a lock for readers and
-- writers (source/mutex.c), keeps counters (source/stats.c), and passes writes on to the next server
-- of the chain, as a client of it. ZooKeeper tells who that is (source/server_callbacks.c,
-- source/client_callbacks.c).
--
-- The files.
--   Base       shared names: C's `int` as ℤ, lists with an index, runs that can fault, loops
--   CString    strings and `strcmp`; CString/Order has the laws of that order
--   Data       source/data.c: `data_create` to `data_replace`
--   Entry      source/entry.c: `entry_create` to `entry_compare`
--   EntryList  source/list.c: a list is its `size` and the entries of its nodes, from `head` on. The
--              head and the nodes behind it are separate functions, as the code treats them.
--              EntryList/Heap has the same functions on a heap of nodes that point to each other, and
--              EntryList/Heap/Adding, Removing and Reading relate them to the sequence of entries.
--              EntryList/Assoc is what a list stands for, EntryList/Refines and EntryList/Keys relate
--              the two
--   Table      source/table.c: a table is its array of lists and its `size`. Table/Hash is
--              `hash_code`; Table/Rows, Table/Methods and Table/Contents say which map from keys to
--              bytes a table holds; Table/Listing and Table/Arrays follow the loops that fill arrays;
--              Table/Whole and Table/Errors complete them
--   Mutex      source/mutex.c: the critical sections that POSIX makes atomic, each as a function of
--              the fields of the lock. Mutex/Threads lets any number of threads interleave them, and
--              lets a wait end at any time, Mutex/Threads/Progress follows a thread that waits;
--              Mutex/Free is the lock as one thread alone sees it
--   Stats      source/stats.c; Stats/Threads is a counter that many threads change under the lock of
--              Mutex/Threads
--   Message    include/sdmessage.pb-c.h: the fields that the program uses, and the opcodes
--   Stub       source/client_stub.c: each call as a request, an exchange, and the reading of the
--              answer
--   Skel       source/table_skel.c: Skel is the state of the server and what its requests share,
--              Skel/Invoke is `invoke`, with a function for each case of its `switch`
--   Serve      source/server_thread.c: the rounds of a connection; `ask` is the exchange of a client
--              with a server, through the sending and receiving of Framing and NetworkServer on both
--              sides, over streams that take and give all bytes. Serve/Transport is about a request
--              and an answer that fit, Serve/Oversize about those that do not; Serve/Calls and
--              Serve/Tables follow the calls of a client through both programs, Serve/Connection the
--              requests of one connection
--   Serialization  source/serialization.c: an array of names as one buffer, and back
--   Chain      source/zoo_utils.c, the choice of the next server in source/server_callbacks.c, and the
--              copying of a table in source/table_server.c. Chain/Copy is about this copy, for which
--              Stub/Entries and Skel/Invoke/Listings say what an answer with entries holds
--   Client     source/table_client.c: the parsing of a command and the comparison of lists of nodes;
--              Client/Commands is the loop of commands with what it prints, Client/Commands/Session
--              all of `main`. A line is read as by `fgets` with room for 98 characters
--   Framing    source/message.c: a message as its size and its pieces on a socket. Framing/Stream is a
--              socket that takes and gives all bytes, Framing/Receipt both sides of it
--   Address    source/address.c, and the reading of an address in source/client_stub.c
--   NetworkClient  source/network_client.c, with `rtable_connect` and `rtable_disconnect` of
--              source/client_stub.c, over a record of the calls of the system; NetworkClient/Flag is
--              about the flag `connected`
--   NetworkServer  source/network_server.c: opening the socket, and the loop over rounds of joining
--              threads and accepting a connection. NetworkServer/Slots follows the slots of threads,
--              NetworkServer/Loop the whole loop, NetworkServer/Failure a creation that fails
--   Endpoints  source/client_callbacks.c: the search for head and tail, as source/table_client.c has it
--              too, and the callback that reconnects to them; Endpoints/Start is the start of the client
--   Resources  source/table_server.c: making and destroying the state of a server, and the handlers of
--              signals
--   Startup    source/table_server.c: `main`, from the first resources over the wait for ZooKeeper and
--              the copy of the table to the loop of the server. Startup/Main is about all of it
--   Replicas   how these parts make a chain: servers with addresses, where a connection reaches the
--              server at its address. A put or del at the head is passed on by each server
--              (source/table_skel.c) over its connection, and a get asks the tail
--              (source/table_client.c); Replicas/Typed starts from a line at a client
--   Tests      examples at concrete inputs
--
-- How the code is read. A pointer that may be NULL is an Option. A function that changes an object
-- through a pointer returns the changed object; each list owns its nodes and each node its entry,
-- so nothing is shared, and `free` leaves nothing to say. EntryList/Heap is the exception: there a
-- pointer to a node is an address, and a freed node is gone. `malloc` succeeds. Reading NULL, reading
-- or writing outside an array and dividing by zero are faults, which end a run; a result `ok` says
-- that there is none. The hash and the conversions between `int`, `size_t` and `unsigned` keep their
-- widths; sizes, counters and times are `int`s that are not taken to overflow. `strcmp` gives -1, 0
-- or 1, since only its sign is used. `memcpy` of more bytes than the source holds is a fault.
--
-- Bounds. Each loop runs over a list or counts up to a number that is known when it starts. The loops
-- of EntryList/Heap are given a number of rounds, for which any number above that of the nodes is
-- enough; the loop of commands is given a number of lines in the same way. The two loops of Framing are bounded by the size of the message, which each round makes
-- smaller. Tables have fewer than 2 ^ 31 rows, the range of `int`.
--
-- Parameters. What lies behind a connection is a state of any type, and the exchange of one message
-- for its answer is a function that returns that state anew or ends in a fault. The packing of
-- messages, which is that of protobuf-c, is a pair of functions; a message crosses a connection if it
-- packs into at most MAX_MSG (2048) bytes and is unpacked again from these, since longer ones end in
-- a fault on both sides. The time that an operation takes is a number.
--
-- A socket, a packing of messages by protobuf-c, and what the system and ZooKeeper answer are
-- arguments too; where a statement needs more of them than their types, it says so.
--
-- Not modelled: messages for the user, but for the output of commands; and the code generated by
-- protoc-c (source/sdmessage.pb-c.c). Threads interleave on the lock and on a counter alone: a chain
-- takes one request after the other, and what the connections make of a server while its `main`
-- waits for more of them is an argument.
pub mod Base
pub mod CString
pub mod Data
pub mod Entry
pub mod EntryList
pub mod Table
pub mod Mutex
pub mod Stats
pub mod Message
pub mod Stub
pub mod Skel
pub mod Serve
pub mod Serialization
pub mod Chain
pub mod Client
pub mod Replicas
pub mod Framing
pub mod Address
pub mod NetworkClient
pub mod NetworkServer
pub mod Endpoints
pub mod Resources
pub mod Startup
pub mod Tests
