-- ===== src/Lib.antt =====
-- market-maker-proto: a verification library for the C++ core of the exchange engine and the
-- market maker (cpp/include/mm and cpp/src).
--
-- The parts and how they meet. A session decodes a frame, which the frame preflight has accepted,
-- into a message, checks its sequence and its epoch, and hands it to the order engine; the engine
-- answers new orders and cancels with reports and each book of the feed with fills, routed to
-- sessions; every session queues its reports and the latest tick in an outbox, which its pump writes
-- one message at a time. The server drives the feed, fans its books out, counts, and ends the run;
-- its telemetry goes as records over a ring to a writer, and a bench recorder times ticks and orders.
-- The native market maker is the client: it turns ticks into quotes, and trades messages with the
-- engine over shared-memory rings.
--
--   Prelude, Prelude.*       the shared names, tests, lists, int64 values, byte strings, masks
--   Types, Types.Validation  mm/types.hpp: prices, sides, the instrument, reject codes, validate_order
--   Protocol                 mm/protocol.hpp: the messages
--   Engine, Engine.*         mm/engine.hpp and engine.cpp. State and Containers hold the class, its
--                            ordered map and its live indexes; Entry is on_new and on_cancel, Sweep is
--                            on_book, Teardown is end_session; Reference is the sweep without indexes;
--                            Calls is a history of calls; Invariant.* keep the representation sound,
--                            and Identity, Admission, Isolation, Fills and Reports use it
--   Outbox, Outbox.*         mm/outbox.hpp: push_report, push_tob, pop, and runs of them
--   Session, Session.*       session.cpp, session_close.cpp and the classes of server_impl.hpp. State
--                            holds Session and ServerImpl, Events the telemetry of a turn, Close the
--                            close half, Reports the pump, Commands and Reads the inbound half, Runs a
--                            life as a list of events. Machine is the abstract session, Refines.* take
--                            the handlers to its steps, and Safety, Wire, Progress, Convergence, Spares,
--                            Sequencing, Pairing, Latching and Rejects say what holds of them
--   Server, Server.*         server.cpp: Snapshot (counters and records), Shutdown (finalize and
--                            session_closed), Driver (the feed, the fan-out, begin_stop); Feeding and
--                            Aggregate relate them to the engine and the sessions
--   Telemetry, Telemetry.*   mm/telemetry.hpp and the records of mm/telemetry_ring.hpp; Writer is
--                            TelemetryWriter, Batch its drain, Snapshot the lanes
--   Bench, Bench.*           mm/bench_recorder.hpp: Samples, Capacity and the bytes of the Dump
--   Ring, Ring.*             Spsc is mm/telemetry_ring.hpp, Shared is the ring of mm/shm_ring.hpp;
--                            Capacity is the rounding of its size; Queue and Shared.Newest relate both
--                            to a bounded queue
--   Shm.Messages             the flat messages of mm/shm_ring.hpp
--   Strategy, Strategy.*     mm/strategy_native.hpp: on_tob, on_depth, cancel_all and the reports
--   Frame, Frame.*           frame_preflight.cpp: Utf8, Lexer (the tokens), Scanner and Rounds (the state
--                            machine of FrameScanner), Preflight (the key policy, identifiers, tags);
--                            Total, Ends and Decides show that the scan ends and what it accepts
--   Feed, Feed.*             feed.cpp: the lines of a feed script and its loader, over the preflight
--
-- (Headers are in cpp/include, sources in cpp/src.)
--
-- How state and operations correspond. A class is a record of its members and a member function is a
-- function of that name from the record, with what it returns. An int64 is an unbounded signed
-- integer, with C++ division; uint64 and uint32 counters wrap as they do in C++. A string is a list of
-- bytes. std::map and the sorted vector of the engine are sorted lists; an iterator is a key, and the
-- dereference of a dead one is an error value. A thrown std::invalid_argument is `none`. An atomic
-- load or store is a read or a write of the state.
--
-- A session runs in a turn: its own record beside the server's, whose map is written back at the end
-- of the turn. The codec, the readings of the steady clock, the ring after a bounded wait and the
-- writer's health are members of the server's record that nothing fixes. The completions of Asio and
-- Beast are events with their error codes as values; what a session asks of the stream is a list of
-- requests.
--
-- Fuel. utf8_valid, the string scan and the loop of FrameScanner::run are given as much fuel as the
-- frame has bytes, with one more for each of the two scans, since each round consumes a byte. The
-- power of two of a ring's capacity is sought in at most 64 doublings. The pump's loop is given the
-- depth of the outbox and one more, since each round pops a message.
--
-- Not modelled: failing allocations and the engine's rollback after one; the interleaving of the two
-- threads inside a ring call; overflow of signed arithmetic; the floating-point pricing, whose results
-- `on_depth` takes as values; the codecs; the acceptor; the start of a run (the configuration's
-- checks, the files and their identities); the writer's thread and its file; the write of the bench
-- dump to its descriptor; the debug lines on stderr; the benchmarks.
pub mod Prelude
pub mod Types
pub mod Protocol
pub mod Engine
pub mod Outbox
pub mod Shm
pub mod Strategy
pub mod Ring
pub mod Frame
pub mod Feed
pub mod Telemetry
pub mod Bench
pub mod Session
pub mod Server
