-- ===== src/Lib.antt =====
-- The lobby of a server for the thirteen-card game (十三水), the rules of its cards, and the connections
-- under it.
--
-- The parts and their files. Paths are from the root of the repository.
-- - Prelude: numbers, lists, options, signed numbers (Prelude/Int) and the 32-bit conversions
--   (Prelude/Words) that the other files share.
-- - Deck: processes/lobby/deck.h and deck.cpp. Cards, Brands and Sorting are the cards, the brands and
--   the order of both; Row3 and Row5 are `brand3`, `brand5`, `brandInfo3`, `brandInfo5` and
--   `brandInfo`; Special is `g13SpecialBrand` with its two halves. Shape and Rules state the rules of
--   the brands without the code's index arithmetic, Agreement relates the two routines for a row, and
--   Strength is about the points and `cmpBrandInfo`.
-- - Game13: processes/lobby/game13.h and game13.cpp. Round is `calcRound`; Table is the state of a
--   game and what it reads of a client (client.h, client_manager.cpp); Actions has `enterRoom`,
--   `removePlayer`, `abortGame` and `checkAllVotes`; Dealing is `tryStartRound`; Settling is
--   `trySettleGame` and the final count; Handlers has the bodies of the messages `GiveUp`,
--   `VoteFoAbortGame`, `ReadyFlag` and `BringOut`, and `timerExec`. Invariant, Voting, Hands, Closing,
--   Counts and Entering are about them.
-- - Rooms: processes/lobby/room.cpp, the registry, with the handlers as they find their client and
--   room, and `CreateGame` and `JionGame` of game13.cpp. Games and Invariant are about its runs, Ticks
--   about `timerExecAll`.
-- - Clients: processes/lobby/client_manager.cpp. The three maps of clients with `insert`, `erase` and
--   the login `proto_LoginQuest`. Consistent says when the maps are in step, Login and Taken are about
--   logins on a free and on a taken connection.
-- - Componet: water/componet. CircularQueue is circular_queue.h, with Window and Refinement on its
--   cells and Runs on its clients; FastTravelMap is fast_travel_unordered_map.h, with Places on the
--   vector and the index, Erasing and Erased on `erase`, and Refinement on its clients. SpscQueue is
--   lock_free_circular_queue_ss.h, the queue between a thread that puts and one that takes: Invariant
--   has what each of them relies on, Pushing and Popping are about their steps, Threads about their
--   runs and Returns about single calls. Serialize is serialize.h, with RoundTrip; Event is event.h,
--   whose handlers are kept as in FastTravelMap, with Handlers.
-- - Net: water/net. ConnectionBuffer is the buffer and `trySend` and `tryRecv` of
--   buffered_connection.cpp, TcpPacket is packet.cpp and tcp_packet.cpp, with Parsing on `parse`.
-- - Base: ProcessId is base/process_id.cpp, an id's test, its packed value and its bytes. Checker is
--   base/private_connection_checker.cpp, the state machine of a connection between two processes
--   before it is used; Flow is about its buffers, Stages says what has come in and gone out at each
--   state, Incoming and Outgoing are about the visits on the two sides, Handshake about whole checks
--   and about two processes. Confirmed connections go to the manager of connections:
--   base/tcp_connection_manager.cpp. Connection is what the manager does with one connection:
--   `sendPacket` and the events `write` and `read`. It uses a buffer of Net for each direction and
--   hands on packets of Net. Sending and Packets are about what goes out, Twice about a packet that
--   meets a busy socket, Receiving, Trace, InOrder and Events about what comes in, up to the queue of
--   packets. Connections has the sets of connections of the manager, with InStep on how they agree,
--   Changes, Erasing and Calls on what the calls do to them.
-- - Http: UrlCode is processes/http/url_en_decode.cpp.
-- - Tests: runs on concrete cards, games, rooms, connections, logins, queues and checks.
--
-- How state is modelled. A `Session` is what a step of one game reads and changes: the clients, the
-- deck that all games share, and the game. A step is a function from sessions to sessions, and a
-- handler of the lobby one from worlds to worlds, which runs the step of the game in the room that it
-- finds. Clients of the lobby's maps are values there, with their keys only, since a key of a client
-- changes only while no map has it. A packet and a buffer are lists of bytes, and a pointer into a
-- buffer is an index. In a game and the rooms `none` is the end of the process: a failed assertion on
-- a card, or a read or write past the end of the deck, which is undefined behaviour. The maps of
-- clients by connection and by player share their clients, so they are one list that is searched by
-- either key. `s_rooms` is a list in the order of the map's iteration, which the theorems leave open.
-- Two threads over a queue are a sequence of turns, each of which is one access to what they share:
-- the status of a cell is stored with release and loaded with acquire, so what a thread reads of a
-- cell after its status is what the other wrote before. A connection under check carries what its
-- socket has given and taken since it came, which the code does not keep and the theorems are about.
--
-- Bounds and fuel. The loops over players, rounds, cards and rooms are structural recursions. The loop
-- over neighbouring pairs of a special brand runs on fuel 11: its index goes from 1 to 12, and each
-- turn adds at least 1. The loops over a buffer or a queue are structural recursions on what is there,
-- and the loops of the events run once for each answer of the socket. Prices in a round go through the
-- conversions of 32-bit words where the source mixes signs; money, prizes and the rounds agreed on are
-- signed numbers without bound, since an overflow of them is undefined behaviour in the source. The
-- numbers of a message are not negative, but the rounds; room ids wrap at 2^32. The positions of a
-- queue of two threads wrap at 2^64, and it has at most 2^24 cells, as its constructor sees to; a size
-- that is serialised has eight bytes.
--
-- Parameters. The socket is a sequence of answers: how many bytes a `send` takes at most, and what a
-- `recv` has. The queue of received packets is shared with the other connections and the process that
-- empties it: how many packets wait when an event begins, and how many are taken between two turns,
-- are arguments, and whether a packet goes in follows from them and the size 1024 of the queue. The
-- names of the process types come from the configuration. The bytes of a reply that the source does
-- not set, and what a fresh value of a type holds, are arguments. A `TcpPacket` counts in 32 bits, and
-- the theorems on parsing ask that a packet fits them. `std::unordered_map` is a function from its
-- keys. `std::shuffle` is any function, of which only the theorem on dealing asks that it permutes.
-- The standard sorts are insertion sorts, whose result the order of equal elements does not change
-- where it matters: on numbers there are no two results, and on cards the theorems on brands hold for
-- any order of the cards dealt.
--
-- Not modelled: the messages sent to clients and the names of players; chat; the processes gateway,
-- hall and router and the http process but its url coding; of base and water what is sockets, threads,
-- timers and logging, the cache of limited size and dates; sets, maps and hash containers of
-- serialize.h and its change of buffers; the broadcasts of the connection manager; the generated code
-- of protocol; vendored code.
pub mod Prelude
pub mod Deck
pub mod Game13
pub mod Rooms
pub mod Clients
pub mod Componet
pub mod Net
pub mod Base
pub mod Http
mod Tests
