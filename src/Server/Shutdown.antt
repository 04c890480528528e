-- ===== src/Server/Shutdown.antt =====
-- The end of a run and of a session in the server (cpp/src/server.cpp): finalize, session_closed and
-- what run does with an exception.
use market_maker_proto.Prelude.{
  ℕ, ◌+◌, ◌%◌, ◌^◌, Bool, true, false, ◌&&◌, ◌==◌, if◌then◌else◌, Option, none, some, List, [], ◌∷◌,
}
use market_maker_proto.Prelude.Text.{Bytes}
use market_maker_proto.Feed.{is_empty}
use market_maker_proto.Bench.{BenchRecorder, serialize}
use market_maker_proto.Telemetry.{event_record, session_close, engine_fault}
use market_maker_proto.Session.State.{Session, ServerImpl, steady_ns, tick}
use market_maker_proto.Session.Events.{emit_event}
use market_maker_proto.Server.Snapshot.{push_final_snapshot, publish_record}

abbrev pub is_none_open : List (ℕ × Session) → Bool
is_none_open [] = true
is_none_open (x ∷ sessions) = false

-- sessions_.erase(epoch).
unfoldable pub erase : List (ℕ × Session) → ℕ → List (ℕ × Session)
erase [] epoch = []
erase ((k, s) ∷ sessions) epoch =
    let rest = erase sessions epoch in if k == epoch then rest else (k, s) ∷ rest

abbrev pub dumped : Option BenchRecorder → ℕ → Option Bytes
dumped none peak = none
dumped (some r) peak = some (serialize r peak)

-- The dump is the bytes handed to the descriptor.
unfoldable pub finalize : ServerImpl → ServerImpl
finalize srv =
    let pushed = push_final_snapshot (record srv { finalized = true }) in
    if srv.finalized then srv else record pushed.0 {
      telemetry_ok = (pushed.1 && srv.env.writer_ok) && pushed.0.telemetry_ok;
      bench_dump =
          if is_empty srv.cfg.bench_out then none else dumped srv.recorder srv.peak_sessions;
    }

unfoldable pub session_closed : ServerImpl → ℕ → ℕ → ℕ → ServerImpl
session_closed srv epoch close_code session_conflated =
    let folded : ServerImpl = record srv {
      conflated_base = (srv.conflated_base + session_conflated) % 2 ^ 64;
    } in
    let told = emit_event folded session_close epoch close_code in
    let erased : ServerImpl = record told { sessions = erase told.sessions epoch } in
    if erased.stopping && is_none_open erased.sessions then finalize erased else erased

-- The handler of an exception that unwinds out of the event loop, before it is thrown on.
unfoldable pub on_engine_fault : ServerImpl → ServerImpl
on_engine_fault srv =
    let fault = event_record engine_fault (steady_ns srv) 0 0 in
    let offered =
      publish_record (record (tick srv) { stopping = true; pending_fault = some fault }) fault in
    finalize (record offered.0 {
      pending_fault = if offered.1 then none else some fault;
      telemetry_ok = false;
    })
