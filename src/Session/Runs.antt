-- ===== src/Session/Runs.antt =====
-- The life of a session (cpp/src/session.cpp, cpp/src/session_close.cpp) as the events that it is told
-- of. The other sessions, the feed and the timers run in between, so each event finds its own server.
use market_maker_proto.Prelude.{ℕ, Bool, List, [], ◌∷◌}
use market_maker_proto.Protocol.{OutMsg, Tob}
use market_maker_proto.Session.State.{Session, ServerImpl, Turn}
use market_maker_proto.Session.Close.{on_drained, on_close_sent, on_grace, drain_transport}
use market_maker_proto.Session.Reports.{begin_close, deliver_report, deliver_tob}
use market_maker_proto.Session.Reads.{Read, ErrorCode, on_read, on_write}

-- The completions of a read, of a write, of the close frame, of the close of an oversize read, of the
-- raw drain and of the grace timer, and the calls of the server.
pub data Event : Type 0 where
  read_done : Read → Event
  write_done : ErrorCode → Event
  report : OutMsg → Event
  tick_of_book : Tob → Event
  close : ℕ → Event
  close_sent drained grace : Bool → Event
  drain : Event

unfoldable pub react : Turn → Event → Turn
react t (read_done r) = on_read t r
react t (write_done ec) = on_write t ec
react t (report m) = deliver_report t m
react t (tick_of_book m) = deliver_tob t m
react t (close code) = begin_close t code
react t (close_sent failed) = on_close_sent t failed
react t (drained failed) = on_drained t failed
react t (grace failed) = on_grace t failed
react t drain = drain_transport t

unfoldable pub run : Session → List (ServerImpl × Event) → Session
run s [] = s
run s ((srv, e) ∷ es) = run (react (record { srv = srv; self = s }) e).self es
