-- ===== src/Session/Close.antt =====
-- The close half of a session (cpp/src/session_close.cpp).
use market_maker_proto.Prelude.{ℕ, Bool, true, false, ◌||◌, if◌then◌else◌, length}
use market_maker_proto.Engine.Teardown.{end_session}
use market_maker_proto.Session.State.{
  Turn, ask, async_close, arm_grace, cancel_grace, close_socket, read_some,
}
use market_maker_proto.Session.Events.{sample_send_lag}
use market_maker_proto.Server.Shutdown.{session_closed}

unfoldable pub retire_epoch : Turn → Turn
retire_epoch t =
    let ended = end_session t.srv.engine t.self.epoch in
    if t.self.epoch_retired then t else record {
      srv = record t.srv { engine = ended.0 };
      self = record t.self { retired_acks = length ended.1; epoch_retired = true };
    }

unfoldable pub latch_close : Turn → ℕ → Bool → Turn × Bool
latch_close t code drain = if t.self.closing || t.self.torn_down then (t, false) else (
  retire_epoch (record t {
    self = record t.self { closing = true; close_code = code; drain_then_close = drain };
  }),
  true,
)

unfoldable pub send_close_frame : Turn → Turn
send_close_frame t =
    if t.self.close_frame_sent || (t.self.torn_down || t.self.write_inflight)
    then t
    else ask
        (ask (record t { self = record t.self { close_frame_sent = true } })
          (async_close t.self.close_code))
        arm_grace

-- The fold of a write that the teardown cuts short.
abbrev pub fold_inflight : Turn → Turn
fold_inflight t = if t.self.write_inflight then sample_send_lag t else t

unfoldable pub teardown : Turn → ℕ → Turn
teardown t recorded_code =
    let folded = fold_inflight (record t { self = record t.self { torn_down = true } }) in
    let retired = ask (ask (retire_epoch folded) cancel_grace) close_socket in
    if t.self.torn_down then t else record retired {
      srv =
          session_closed retired.srv retired.self.epoch recorded_code retired.self.outbox.conflated;
    }

unfoldable pub drain_read : Turn → Turn
drain_read t = ask t read_some

unfoldable pub drain_transport : Turn → Turn
drain_transport t = if t.self.torn_down then t else drain_read (ask t arm_grace)

-- The completions of drain_read, of the close frame and of the grace timer; `failed` is its error.
unfoldable pub on_drained : Turn → Bool → Turn
on_drained t failed = if failed then teardown t t.self.close_code else drain_read t

unfoldable pub on_close_sent : Turn → Bool → Turn
on_close_sent t failed = if failed then teardown t t.self.close_code else t

unfoldable pub on_grace : Turn → Bool → Turn
on_grace t failed = if failed || t.self.torn_down then t else ask t close_socket
