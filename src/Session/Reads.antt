-- ===== src/Session/Reads.antt =====
-- The completions of a session's reads and writes (cpp/src/session.cpp).
use market_maker_proto.Prelude.{ℕ, Bool, true, false, ◌==◌, if◌then◌else◌}
use market_maker_proto.Prelude.Text.{Bytes}
use market_maker_proto.Session.State.{
  Turn, ask, async_close, read_next, steady_ns, tick, no_code, normal, going_away, protocol_error,
  abnormal, bad_payload, too_big,
}
use market_maker_proto.Session.Events.{sample_send_lag}
use market_maker_proto.Session.Close.{latch_close, teardown}
use market_maker_proto.Session.Reports.{begin_close, pump}
use market_maker_proto.Session.Commands.{on_message}

-- The error codes that the handlers tell apart; `violation` is any other error that Beast sorts under
-- condition::protocol_violation, under which bad_frame_payload is sorted too.
pub data ErrorCode : Type 0 where
  success closed timeout operation_aborted message_too_big : ErrorCode
  bad_frame_payload violation other : ErrorCode

-- A completed read: reason().code, got_binary() and the readable region.
pub record Read : Type 0 where
  pub ec : ErrorCode
  pub peer : ℕ
  pub binary : Bool
  pub frame : Bytes

abbrev pub own_or : Turn → ℕ → ℕ
own_or t code = if t.self.closing then t.self.close_code else code

-- ws_.async_close of a read past the transport ceiling.
abbrev pub close_too_big : Turn → Turn
close_too_big t =
    ask (record t { self = record t.self { close_frame_sent = true } }) (async_close too_big)

unfoldable pub on_frame : Turn → Read → Turn
on_frame t r =
    let arrived : Turn = record t { srv = tick t.srv } in
    if t.self.closing
    then read_next arrived
    else if r.binary
    then read_next (begin_close arrived protocol_error)
    else read_next (on_message arrived r.frame (steady_ns t.srv))

unfoldable pub read_error : Turn → Read → ErrorCode → Turn
read_error t r closed = teardown t (own_or t (if r.peer == no_code then normal else r.peer))
read_error t r timeout = teardown t (own_or t going_away)
read_error t r operation_aborted = teardown t (own_or t going_away)
read_error t r message_too_big =
    let latched = latch_close t too_big false in
    if latched.1 then close_too_big latched.0 else teardown t t.self.close_code
read_error t r bad_frame_payload = teardown t (own_or t bad_payload)
read_error t r violation = teardown t (own_or t protocol_error)
read_error t r other = teardown t (own_or t abnormal)
read_error t r success = on_frame t r

unfoldable pub on_read : Turn → Read → Turn
on_read t r = if t.self.torn_down then t else read_error t r r.ec

abbrev pub write_verdict : ErrorCode → ℕ
write_verdict timeout = going_away
write_verdict operation_aborted = going_away
write_verdict success = abnormal
write_verdict closed = abnormal
write_verdict message_too_big = abnormal
write_verdict bad_frame_payload = abnormal
write_verdict violation = abnormal
write_verdict other = abnormal

abbrev pub is_success : ErrorCode → Bool
is_success success = true
is_success closed = false
is_success timeout = false
is_success operation_aborted = false
is_success message_too_big = false
is_success bad_frame_payload = false
is_success violation = false
is_success other = false

unfoldable pub on_write : Turn → ErrorCode → Turn
on_write t ec =
    let landed : Turn = record t { self = record t.self { write_inflight = false } } in
    let sampled = sample_send_lag landed in
    if t.self.torn_down
    then landed
    else if is_success ec
    then pump sampled
    else teardown sampled (own_or sampled (write_verdict ec))
