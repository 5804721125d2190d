-- ===== src/Lib.antt =====
-- simple-dnsd, an authoritative name server in C++: its library under src/simple-dnsd and
-- include/simple-dnsd.
--
-- A query arrives as bytes, is decoded (protocol/dns.cpp), and is handed with its peer to the engine
-- (core/engine.cpp). The engine counts it, asks the rate limiter, and takes the branch of its opcode.
-- A question is answered from the packet cache or from the backends; a transfer sends a whole zone; an
-- update changes one by a transaction, empties the cache and tells the secondaries. The engine sees the
-- backends through a router (backend/router.cpp), which picks the zone with the longest name. The
-- response is encoded again, cut to the size that the client takes (core/server.cpp). Over TCP messages
-- come one behind the other on a stream. The zones are kept in memory, in BIND's files or in a database
-- (backend/memory.cpp, bindfile.cpp, gsql.cpp), and are filled from zone files (zone/zone.cpp), from a
-- master (core/server.cpp), over REST (api/rest.cpp) or from the command line (cli/util.cpp). The
-- configuration (config/config.cpp) says which backends there are. The program (main/simple-dnsd.cpp)
-- reads it, opens the sockets (utils/net.cpp), starts the threads and waits for a signal to stop them.
--
-- The files:
--   Base, Outcome, Chain, Text, StringMap: byte strings, lists, results that may be an exception, the
--     text helpers of utils/platform.cpp with the number parsing of the C++ library, and std::map.
--   Name, Record, Wire, Rdata, Message: protocol/dns.cpp and its header. A method `fooBar` is the
--     function `foo_bar`; DnsName::parse is Name.parse. A reader that takes an offset by reference and
--     returns a flag returns an Option of the value and the next offset.
--   Inet: inet_pton and inet_ntop, a parameter of what calls them.
--   Backend: backend/backend.hpp, the virtual classes as records of operations over a state.
--   Memory: backend/memory.cpp. The map of zones is the state; a transaction names its zone by key.
--   Files: reading and writing files, a parameter of what does so.
--   BindFile: backend/bindfile.cpp, the map of zones with the disk; its transactions are in Edit.
--   Gsql: backend/gsql.cpp over an arbitrary session of a database: the texts of its statements, its
--     transactions (Session), its schemas, and what it makes of the rows. Drivers is
--     backend/sqlite.cpp, mysql.cpp and postgres.cpp over the client libraries.
--   Router: backend/router.cpp, over any backend; Launch makes the backends of a configuration.
--   Serial, Zone: zone/zone.cpp, with BIND's named.conf (NamedConf) and import and export (Exchange).
--   Tsig: protocol/tsig.cpp over an arbitrary keyed hash; Base64 beside it.
--   Config: config/config.hpp; Load and Validate are config/config.cpp.
--   Engine: core/engine.cpp, one module per operation; the two clocks are arguments, and what is sent
--     or exported is kept in the list `effects`.
--   Logger: utils/logger.cpp.
--   Net: utils/net.cpp over the calls of the operating system, which are the record Os (Calls) over a
--     state; Transfer is its reading and writing of messages.
--   Server: core/server.cpp: the path of a UDP query, sessions over TCP (Tcp) with the framing of
--     utils/net.cpp (Frame), the refresh of secondaries (Secondary), start and stop (Lifecycle), and
--     the accept loop with the session threads as a relation of steps (Sessions), what all threads do
--     with descriptors (Traffic), and the loop over UDP packets with its worker threads (Udp).
--   Rest: api/rest.cpp, from the bytes of a request to a response and the engine behind it, over an
--     arbitrary JSON library. Command: cli/util.cpp. Program: the main program and core/daemon.cpp.
--   Examples: the theorems at concrete inputs.
--
-- Numbers are natural numbers with the wrap-around of their C++ type written out. A call that may end
-- by a C++ exception returns an Outcome.
--
-- Bounds: decode_name allows 21 parts of a name, as many as the source's limit of 20 jumps lets it
-- enter, and gives the loop inside one part one round more than the buffer has bytes; each round moves
-- the position forward, so the loop ends by its own tests before. Nested $INCLUDE of zone files is cut
-- by fuel, with a result of its own, since the source has no limit there.
--
-- A session over TCP takes at least a byte off its stream in each round, and so does the loop over the
-- messages of a transfer; their fuel is one more than the stream has bytes. The loop over a named.conf
-- has one round more than the file has bytes, since each round goes on behind a closing brace.
--
-- The loops that read and write a connection move a byte at least in each round, so the number of bytes
-- that are left is their fuel.
--
-- The operations that read a backend give values: those of the memory and the file backends cannot throw.
-- Those of the database can (rowToZone and rowToRr of backend/gsql.cpp), so Gsql is no instance of the
-- record Backend, and the theorems on the router and on the engine do not cover it.
--
-- Not modelled: the order in which the worker threads of UDP reach the engine, time outs, locks beyond
-- the order of whole calls, what is printed, the branches for Windows, the loop that
-- waits for a signal, and what is not in the repository: the operating system, the client libraries of
-- the databases, the JSON library and the keyed hash.
pub mod Base
pub mod Outcome
pub mod Text
pub mod StringMap
pub mod Name
pub mod Record
pub mod Wire
pub mod Chain
pub mod Inet
pub mod Rdata
pub mod Message
pub mod Backend
pub mod Files
pub mod BindFile
pub mod Gsql
pub mod Serial
pub mod Memory
pub mod Router
pub mod Tsig
pub mod Config
pub mod Engine
pub mod Zone
pub mod Logger
pub mod Net
pub mod Server
pub mod Rest
pub mod Command
pub mod Program
pub mod Examples
