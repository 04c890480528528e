-- ===== src/Session/Refines/Handlers.antt =====
-- The steps of a session's commands and of its completions (cpp/src/session.cpp).
use market_maker_proto.Prelude.{
  ◌≡◌, refl, ap, ◌∙◌, true, false, not, ◌==◌, ltb, if◌then◌else◌, if_cases, Option, none, some,
  List, [], ◌∷◌, length, inr,
}
use market_maker_proto.Prelude.Int.{ℤ, ◌-ℤ◌}
use market_maker_proto.Prelude.Text.{Bytes}
use market_maker_proto.Types.{RejectCode, msg_too_large, stale_epoch}
use market_maker_proto.Protocol.{
  InMsg, OutMsg, new_order, cancel_order, tob, order_ack, cancel_ack, reject, fill,
}
use market_maker_proto.Session.State.{
  Session, ServerImpl, Turn, Decoded, failed, decoded, async_read, async_close, read_next,
  steady_ns, tick, protocol_error, too_big,
}
use market_maker_proto.Session.Events.{count_reject, reject_code_from_wire, sample_send_lag}
use market_maker_proto.Session.Close.{teardown}
use market_maker_proto.Session.Reports.{enqueue_report}
use market_maker_proto.Session.Commands.{
  count_new, count_cancel, narrate_reject, report_new, report_cancel, narrate_command, serve,
  on_command, on_decoded, on_message, make_reject, seq_of, epoch_of, max_inbound_msg_bytes,
}
use market_maker_proto.Session.Reads.{
  Read, ErrorCode, success, closed, timeout, operation_aborted, message_too_big, bad_frame_payload,
  violation, other, on_frame, read_error, on_read, on_write, close_too_big, is_success,
}
use market_maker_proto.Session.Machine.{
  View, view, ◌⟶*◌, here, more, trans, one, latch, frame, land,
}
use market_maker_proto.Session.Runs.{
  Event, read_done, write_done, report, tick_of_book, close, close_sent, drained, drain, grace,
  react, run,
}
use market_maker_proto.Session.Refines.Quiet.{Leads, ask-view, emit_reject_event-view}
use market_maker_proto.Session.Refines.Closing.{
  latch_close_cases, teardown-Leads, sample_send_lag-view, on_drained-Leads, on_close_sent-Leads,
  on_grace-Leads, drain_transport-Leads,
}
use market_maker_proto.Session.Refines.Pumping.{pump-Leads, begin_close-Leads}
use market_maker_proto.Session.Refines.Enqueues.{
  enqueue_report-Leads, push_reject-Leads, deliver_report-Leads, deliver_tob-Leads,
}

narrated-view :
    (t : Turn) (code : Option RejectCode) → view (narrate_reject t code).self ≡ view t.self
narrated-view t none = refl
narrated-view t (some code) = emit_reject_event-view t code

count_new-view :
    (t : Turn) (service : ℤ) (m : OutMsg) → view (count_new t service m).self ≡ view t.self
unfolding count_new count_reject
count_new-view t service (order_ack a) = refl
count_new-view t service (reject r) = narrated-view (count_reject t) (reject_code_from_wire r.code)
count_new-view t service (tob m) = refl
count_new-view t service (cancel_ack m) = refl
count_new-view t service (fill m) = refl

count_cancel-view : (t : Turn) (m : OutMsg) → view (count_cancel t m).self ≡ view t.self
unfolding count_cancel count_reject
count_cancel-view t (order_ack a) = refl
count_cancel-view t (reject r) = narrated-view (count_reject t) (reject_code_from_wire r.code)
count_cancel-view t (tob m) = refl
count_cancel-view t (cancel_ack m) = refl
count_cancel-view t (fill m) = refl

report_new-Leads :
    (t : Turn) (service : ℤ) (batch : List OutMsg) → Leads t (report_new t service batch)
unfolding report_new
report_new-Leads t service [] = here
report_new-Leads t service (m ∷ batch) =
    let u = count_new t service m in
    let counted : Leads t u = rw (count_new-view t service m) here in
    trans counted
      (trans (enqueue_report-Leads u m) (report_new-Leads (enqueue_report u m) service batch))

report_cancel-Leads : (t : Turn) (batch : List OutMsg) → Leads t (report_cancel t batch)
unfolding report_cancel
report_cancel-Leads t [] = here
report_cancel-Leads t (m ∷ batch) =
    let u = count_cancel t m in
    let counted : Leads t u = rw (count_cancel-view t m) here in
    trans counted
      (trans (enqueue_report-Leads u m) (report_cancel-Leads (enqueue_report u m) batch))

narrate_command-Leads : (t : Turn) (service : ℤ) → Leads t (narrate_command t service)
narrate_command-Leads t service =
    if_cases (Leads t) t.srv.cfg.telemetry_verbose _ _ (λ e. here) (λ e. here)

serve-Leads : (t : Turn) (m : InMsg) (arrival e1 : ℤ) → Leads t (serve t m arrival e1)
unfolding serve
serve-Leads t (new_order m) arrival e1 =
    trans (report_new-Leads _ (steady_ns t.srv -ℤ e1) _)
      (narrate_command-Leads _ (steady_ns t.srv -ℤ e1))
serve-Leads t (cancel_order m) arrival e1 =
    trans (report_cancel-Leads _ _) (narrate_command-Leads _ (steady_ns t.srv -ℤ e1))

pub on_command-Leads : (t : Turn) (m : InMsg) (arrival e1 : ℤ) → Leads t (on_command t m arrival e1)
unfolding on_command
on_command-Leads t m arrival e1 =
    if_cases (Leads t) (not (seq_of m == t.self.in_seq_expected)) _ _
      (λ e. begin_close-Leads t protocol_error)
      (λ e.
        if_cases (Leads t) (not (epoch_of m == t.self.epoch)) _ _
          (λ f. push_reject-Leads _ _ stale_epoch) (λ f. serve-Leads _ m arrival e1))

on_decoded-Leads : (t : Turn) (d : Decoded) (arrival : ℤ) → Leads t (on_decoded t d arrival)
on_decoded-Leads t (failed err) arrival =
    trans (push_reject-Leads t (make_reject [] err.code err.detail) err.code) (pump-Leads _)
on_decoded-Leads t (decoded m) arrival =
    trans (on_command-Leads (record t { srv = tick t.srv }) m arrival (steady_ns t.srv))
      (pump-Leads _)

on_message-Leads : (t : Turn) (text : Bytes) (arrival : ℤ) → Leads t (on_message t text arrival)
unfolding on_message
on_message-Leads t text arrival =
    if_cases (Leads t) (ltb max_inbound_msg_bytes (length text)) _ _
      (λ e. trans (push_reject-Leads t _ msg_too_large) (pump-Leads _))
      (λ e. on_decoded-Leads t (t.srv.codec.decode text) arrival)

read_next-Leads : (t u : Turn) → Leads t u → Leads t (read_next u)
unfolding read_next
read_next-Leads t u p = rw (ask-view u async_read refl) p

on_frame-Leads : (t : Turn) (r : Read) → Leads t (on_frame t r)
unfolding on_frame
on_frame-Leads t r =
    let arrived : Turn = record t { srv = tick t.srv } in
    if_cases (Leads t) t.self.closing _ _ (λ e. read_next-Leads t arrived here)
      (λ e.
        if_cases (Leads t) r.binary _ _
          (λ f. read_next-Leads t _ (begin_close-Leads arrived protocol_error))
          (λ f. read_next-Leads t _ (on_message-Leads arrived r.frame (steady_ns t.srv))))

read_error-Leads : (t : Turn) (r : Read) (ec : ErrorCode) → Leads t (read_error t r ec)
unfolding read_error
read_error-Leads t r closed = teardown-Leads t _
read_error-Leads t r timeout = teardown-Leads t _
read_error-Leads t r operation_aborted = teardown-Leads t _
read_error-Leads t r bad_frame_payload = teardown-Leads t _
read_error-Leads t r violation = teardown-Leads t _
read_error-Leads t r other = teardown-Leads t _
read_error-Leads t r success = on_frame-Leads t r
read_error-Leads t r message_too_big =
    latch_close_cases t too_big false
      (λ l. Leads t (if l.1 then close_too_big l.0 else teardown t t.self.close_code))
      (λ e. teardown-Leads t t.self.close_code)
      (λ c f u v.
        let framed : Turn = record u { self = record u.self { close_frame_sent = true } } in
        let g =
          ask-view framed (async_close too_big) refl
          ∙ ap (λ (x : View). record x { close_frame_sent = true }) v in
        rw g (more (latch too_big c f) (one (frame refl f (inr refl)))))

on_read-Leads : (t : Turn) (r : Read) → Leads t (on_read t r)
unfolding on_read
on_read-Leads t r =
    if_cases (Leads t) t.self.torn_down _ _ (λ e. here) (λ e. read_error-Leads t r r.ec)

on_write-Leads : (t : Turn) (ec : ErrorCode) → Leads t (on_write t ec)
unfolding on_write
on_write-Leads t ec =
    let landed : Turn = record t { self = record t.self { write_inflight = false } } in
    let first : Leads t (sample_send_lag landed) = rw (sample_send_lag-view landed) (one land) in
    if_cases (Leads t) t.self.torn_down _ _ (λ e. one land)
      (λ e.
        if_cases (Leads t) (is_success ec) _ _ (λ f. trans first (pump-Leads _))
          (λ f. trans first (teardown-Leads _ _)))

react-Leads : (t : Turn) (e : Event) → Leads t (react t e)
unfolding react
react-Leads t (read_done r) = on_read-Leads t r
react-Leads t (write_done ec) = on_write-Leads t ec
react-Leads t (report m) = deliver_report-Leads t m
react-Leads t (tick_of_book m) = deliver_tob-Leads t m
react-Leads t (close code) = begin_close-Leads t code
react-Leads t (close_sent err) = on_close_sent-Leads t err
react-Leads t (drained err) = on_drained-Leads t err
react-Leads t drain = drain_transport-Leads t
react-Leads t (grace err) = on_grace-Leads t err

-- Whatever a session is told, in whatever order and whatever the server has become between one event
-- and the next, all that it does to its latches and to its wire are steps of the machine.
pub run-⟶* : (s : Session) (es : List (ServerImpl × Event)) → view s ⟶* view (run s es)
unfolding run
run-⟶* s [] = here
run-⟶* s ((srv, e) ∷ es) =
    let t : Turn = record { srv = srv; self = s } in
    trans (react-Leads t e) (run-⟶* (react t e).self es)
