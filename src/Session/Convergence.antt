-- ===== src/Session/Convergence.antt =====
-- A close that is under way converges (the obligation of latch_close's callers in
-- cpp/src/server_impl.hpp): every event leaves it something that will complete.
use market_maker_proto.Prelude.{
  ℕ, ◌≡◌, refl, true, false, ◌||◌, ◌==◌, ltb, if_cases, List, [], ◌∷◌, inl, inr, arith, length,
}
use market_maker_proto.Prelude.Int.{ℤ}
use market_maker_proto.Prelude.Text.{Bytes}
use market_maker_proto.Session.State.{
  Session, ServerImpl, Turn, Decoded, failed, decoded, read_next, steady_ns, tick, policy_error,
  going_away, protocol_error, too_big,
}
use market_maker_proto.Session.Close.{
  latch_close, teardown, drain_read, drain_transport, on_drained, on_close_sent, on_grace,
}
use market_maker_proto.Session.Reports.{pump, begin_close, deliver_report, deliver_tob}
use market_maker_proto.Session.Commands.{on_message, on_decoded, max_inbound_msg_bytes}
use market_maker_proto.Session.Reads.{
  Read, ErrorCode, success, closed, timeout, operation_aborted, message_too_big, bad_frame_payload,
  violation, other, on_frame, read_error, on_read, on_write, is_success,
}
use market_maker_proto.Session.Runs.{
  Event, read_done, write_done, report, tick_of_book, close, close_sent, drained, drain, grace,
  react, run,
}
use market_maker_proto.Session.Refines.Closing.{torn}
use market_maker_proto.Session.Progress.{is_busy, busy_when, Progress, pump-Progress}

-- A session that is closing has a write in flight, its close frame out, or been torn down.
abbrev pub Converges : Session → Type 0
Converges s = s.closing ≡ true → is_busy s ≡ true

Progress-Converges : (s : Session) → Progress s → Converges s
Progress-Converges s (inl b) c = b
Progress-Converges s (inr (n, e)) c = absurd (ground (arith, n, c))

pumped : (t : Turn) → Converges (pump t).self
pumped t = Progress-Converges (pump t).self (pump-Progress t)

teardown-Converges : (t : Turn) (code : ℕ) → Converges (teardown t code).self
teardown-Converges t code c =
    let s = (teardown t code).self in
    busy_when s.write_inflight s.torn_down s.close_frame_sent (inr (inl (torn t code)))

begin_close-Converges :
    (t : Turn) (code : ℕ) → Converges t.self → Converges (begin_close t code).self
unfolding begin_close
begin_close-Converges t code h =
    let l = latch_close t code (code == policy_error || code == going_away) in
    if_cases (λ (u : Turn). Converges u.self) l.1 _ _ (λ e. pumped l.0) (λ e. h)

on_message-Converges :
    (t : Turn) (text : Bytes) (arrival : ℤ) → Converges (on_message t text arrival).self
unfolding on_message
on_message-Converges t text arrival =
    if_cases (λ (u : Turn). Converges u.self) (ltb max_inbound_msg_bytes (length text)) _ _
      (λ e. pumped _) (λ e. decided (t.srv.codec.decode text))
  where
    decided : (d : Decoded) → Converges (on_decoded t d arrival).self
    decided (failed err) = pumped _
    decided (decoded m) = pumped _

on_frame-Converges : (t : Turn) (r : Read) → Converges t.self → Converges (on_frame t r).self
unfolding on_frame read_next
on_frame-Converges t r h =
    let arrived : Turn = record t { srv = tick t.srv } in
    if_cases (λ (u : Turn). Converges u.self) t.self.closing _ _ (λ e. h)
      (λ e.
        if_cases (λ (u : Turn). Converges u.self) r.binary _ _
          (λ f. begin_close-Converges arrived protocol_error h)
          (λ f. on_message-Converges arrived r.frame (steady_ns t.srv)))

read_error-Converges :
    (t : Turn) (r : Read) (ec : ErrorCode) → Converges t.self → Converges (read_error t r ec).self
unfolding read_error
read_error-Converges t r closed h = teardown-Converges t _
read_error-Converges t r timeout h = teardown-Converges t _
read_error-Converges t r operation_aborted h = teardown-Converges t _
read_error-Converges t r bad_frame_payload h = teardown-Converges t _
read_error-Converges t r violation h = teardown-Converges t _
read_error-Converges t r other h = teardown-Converges t _
read_error-Converges t r success h = on_frame-Converges t r h
read_error-Converges t r message_too_big h =
    let l = latch_close t too_big false in
    if_cases (λ (u : Turn). Converges u.self) l.1 _ _
      (λ e c. busy_when l.0.self.write_inflight l.0.self.torn_down true (inr (inr refl)))
      (λ e. teardown-Converges t t.self.close_code)

on_write-Converges : (t : Turn) (ec : ErrorCode) → Converges (on_write t ec).self
unfolding on_write
on_write-Converges t ec =
    if_cases (λ (u : Turn). Converges u.self) t.self.torn_down _ _
      (λ e c. busy_when false t.self.torn_down t.self.close_frame_sent (inr (inl e)))
      (λ e.
        if_cases (λ (u : Turn). Converges u.self) (is_success ec) _ _ (λ f. pumped _)
          (λ f. teardown-Converges _ _))

-- No event leaves a session that converges stranded.
react-Converges : (t : Turn) (e : Event) → Converges t.self → Converges (react t e).self
unfolding react on_read deliver_report deliver_tob on_close_sent on_drained drain_read
    drain_transport on_grace
react-Converges t (read_done r) h =
    if_cases (λ (u : Turn). Converges u.self) t.self.torn_down _ _ (λ e. h)
      (λ e. read_error-Converges t r r.ec h)
react-Converges t (write_done ec) h = on_write-Converges t ec
react-Converges t (report m) h =
    if_cases (λ (u : Turn). Converges u.self) t.self.torn_down _ _ (λ e. h) (λ e. pumped _)
react-Converges t (tick_of_book m) h =
    if_cases (λ (u : Turn). Converges u.self) (t.self.torn_down || t.self.closing) _ _ (λ e. h)
      (λ e. pumped _)
react-Converges t (close code) h = begin_close-Converges t code h
react-Converges t (close_sent err) h =
    if_cases (λ (u : Turn). Converges u.self) err _ _ (λ e. teardown-Converges t t.self.close_code)
      (λ e. h)
react-Converges t (drained err) h =
    if_cases (λ (u : Turn). Converges u.self) err _ _ (λ e. teardown-Converges t t.self.close_code)
      (λ e. h)
react-Converges t drain h =
    if_cases (λ (u : Turn). Converges u.self) t.self.torn_down _ _ (λ e. h) (λ e. h)
react-Converges t (grace err) h =
    if_cases (λ (u : Turn). Converges u.self) (err || t.self.torn_down) _ _ (λ e. h) (λ e. h)

-- No session is stranded in its close: from a session that converges, as an open one does, after any
-- sequence of events and whatever the server does in between, if it is closing then a write is in
-- flight, or its close frame is out, or it has been torn down.
pub run-Converges :
    (s : Session) (es : List (ServerImpl × Event)) → Converges s → Converges (run s es)
unfolding run
run-Converges s [] h = h
run-Converges s ((srv, e) ∷ es) h =
    let t : Turn = record { srv = srv; self = s } in
    run-Converges (react t e).self es (react-Converges t e h)
