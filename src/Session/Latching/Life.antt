-- ===== src/Session/Latching/Life.antt =====
-- The latch of the reject events through the commands, the completions and the life of a session
-- (cpp/src/session.cpp, cpp/src/session_close.cpp).
use market_maker_proto.Prelude.{
  ℕ, true, false, not, ◌||◌, if_cases, Option, none, some, List, [], ◌∷◌, length, ◌==◌, ltb,
  inc_u64,
}
use market_maker_proto.Prelude.Int.{ℤ, ◌-ℤ◌}
use market_maker_proto.Types.{RejectCode, msg_too_large, stale_epoch}
use market_maker_proto.Protocol.{
  OutMsg, Reject, tob, order_ack, cancel_ack, reject, fill, InMsg, new_order, cancel_order,
}
use market_maker_proto.Session.State.{
  Session, Turn, ServerImpl, Decoded, failed, decoded, read_next, steady_ns, tick, protocol_error,
  too_big,
}
use market_maker_proto.Session.Events.{count_reject, reject_code_from_wire, sample_send_lag}
use market_maker_proto.Session.Reports.{enqueue_report}
use market_maker_proto.Session.Commands.{
  count_new, count_cancel, narrate_reject, narrated, report_new, report_cancel, make_reject,
  narrate_command, serve, on_command, on_decoded, on_message, seq_of, epoch_of,
  max_inbound_msg_bytes,
}
use market_maker_proto.Prelude.Text.{Bytes}
use market_maker_proto.Session.Close.{
  retire_epoch, latch_close, fold_inflight, teardown, drain_read, drain_transport, on_drained,
  on_close_sent, on_grace,
}
use market_maker_proto.Session.Reads.{
  Read, ErrorCode, success, closed, timeout, operation_aborted, message_too_big, bad_frame_payload,
  violation, other, on_frame, read_error, on_read, on_write, is_success, own_or, write_verdict,
}
use market_maker_proto.Session.Runs.{
  Event, read_done, write_done, report, tick_of_book, close, close_sent, drained, drain, grace,
  react, run,
}
use market_maker_proto.Session.Latching.{Latched, emit_reject_event-Latched}
use market_maker_proto.Session.Latching.Pumping.{
  latch_close-Latched, pump-Latched, begin_close-Latched, enqueue_report-Latched,
  push_reject-Latched, deliver_report-Latched, deliver_tob-Latched,
}

module _ (code : RejectCode) (start : ℤ) where
  narrated-Latched :
      (t : Turn) (r : Reject) → Latched code start t.self → Latched code start (narrated t r).self
  unfolding count_reject
  narrated-Latched t r p = narrate (reject_code_from_wire r.code)
    where
      narrate :
          (o : Option RejectCode) → Latched code start (narrate_reject (count_reject t) o).self
      narrate none = p
      narrate (some c) = emit_reject_event-Latched code start (count_reject t) c p

  count_new-Latched :
      (t : Turn) (service : ℤ) (m : OutMsg)
      → Latched code start t.self
      → Latched code start (count_new t service m).self
  unfolding count_new
  count_new-Latched t service (order_ack a) p = p
  count_new-Latched t service (reject r) p = narrated-Latched t r p
  count_new-Latched t service (tob m) p = p
  count_new-Latched t service (cancel_ack m) p = p
  count_new-Latched t service (fill m) p = p

  report_new-Latched :
      (t : Turn) (service : ℤ) (batch : List OutMsg)
      → Latched code start t.self
      → Latched code start (report_new t service batch).self
  unfolding report_new
  report_new-Latched t service [] p = p
  report_new-Latched t service (m ∷ batch) p =
      report_new-Latched (enqueue_report (count_new t service m) m) service batch (
        enqueue_report-Latched code start (count_new t service m) m
          (count_new-Latched t service m p))

  count_cancel-Latched :
      (t : Turn) (m : OutMsg)
      → Latched code start t.self
      → Latched code start (count_cancel t m).self
  unfolding count_cancel
  count_cancel-Latched t (order_ack a) p = p
  count_cancel-Latched t (reject r) p = narrated-Latched t r p
  count_cancel-Latched t (tob m) p = p
  count_cancel-Latched t (cancel_ack m) p = p
  count_cancel-Latched t (fill m) p = p

  report_cancel-Latched :
      (t : Turn) (batch : List OutMsg)
      → Latched code start t.self
      → Latched code start (report_cancel t batch).self
  unfolding report_cancel
  report_cancel-Latched t [] p = p
  report_cancel-Latched t (m ∷ batch) p =
      report_cancel-Latched (enqueue_report (count_cancel t m) m) batch
        (enqueue_report-Latched code start (count_cancel t m) m (count_cancel-Latched t m p))

  narrate_command-Latched :
      (t : Turn) (service : ℤ)
      → Latched code start t.self
      → Latched code start (narrate_command t service).self
  narrate_command-Latched t service p =
      if_cases (λ (w : Turn). Latched code start w.self) t.srv.cfg.telemetry_verbose _ _ (λ e. p)
        (λ e. p)

  serve-Latched :
      (t : Turn) (m : InMsg) (arrival e1 : ℤ)
      → Latched code start t.self
      → Latched code start (serve t m arrival e1).self
  unfolding serve
  serve-Latched t (new_order m) arrival e1 p =
      narrate_command-Latched _ (steady_ns t.srv -ℤ e1)
        (report_new-Latched _ (steady_ns t.srv -ℤ e1) _ p)
  serve-Latched t (cancel_order m) arrival e1 p =
      narrate_command-Latched _ (steady_ns t.srv -ℤ e1) (report_cancel-Latched _ _ p)

  on_command-Latched :
      (t : Turn) (m : InMsg) (arrival e1 : ℤ)
      → Latched code start t.self
      → Latched code start (on_command t m arrival e1).self
  unfolding on_command
  on_command-Latched t m arrival e1 p =
      let P = λ (w : Turn). Latched code start w.self in
      let expected : Turn = record t {
        self = record t.self { in_seq_expected = inc_u64 t.self.in_seq_expected };
      } in
      if_cases P (not (seq_of m == t.self.in_seq_expected)) _ _
        (λ e. begin_close-Latched code start t protocol_error p)
        (λ e.
          if_cases P (not (epoch_of m == t.self.epoch)) _ _
            (λ f. push_reject-Latched code start expected _ stale_epoch p)
            (λ f. serve-Latched expected m arrival e1 p))

  on_decoded-Latched :
      (t : Turn) (d : Decoded) (arrival : ℤ)
      → Latched code start t.self
      → Latched code start (on_decoded t d arrival).self
  on_decoded-Latched t (failed err) arrival p =
      pump-Latched code start _
        (push_reject-Latched code start t (make_reject [] err.code err.detail) err.code p)
  on_decoded-Latched t (decoded m) arrival p =
      pump-Latched code start _
        (on_command-Latched (record t { srv = tick t.srv }) m arrival (steady_ns t.srv) p)

  on_message-Latched :
      (t : Turn) (text : Bytes) (arrival : ℤ)
      → Latched code start t.self
      → Latched code start (on_message t text arrival).self
  unfolding on_message
  on_message-Latched t text arrival p =
      if_cases (λ (w : Turn). Latched code start w.self) (ltb max_inbound_msg_bytes (length text)) _
        _ (λ e. pump-Latched code start _ (push_reject-Latched code start t _ msg_too_large p))
        (λ e. on_decoded-Latched t (t.srv.codec.decode text) arrival p)

  on_frame-Latched :
      (t : Turn) (r : Read) → Latched code start t.self → Latched code start (on_frame t r).self
  unfolding on_frame read_next
  on_frame-Latched t r p =
      let P = λ (w : Turn). Latched code start w.self in
      let arrived : Turn = record t { srv = tick t.srv } in
      if_cases P t.self.closing _ _ (λ e. p)
        (λ e.
          if_cases P r.binary _ _ (λ f. begin_close-Latched code start arrived protocol_error p)
            (λ f. on_message-Latched arrived r.frame (steady_ns t.srv) p))

  teardown-Latched :
      (t : Turn) (c : ℕ) → Latched code start t.self → Latched code start (teardown t c).self
  unfolding teardown sample_send_lag retire_epoch
  teardown-Latched t c p =
      let torn : Turn = record t { self = record t.self { torn_down = true } } in
      let q : Latched code start (fold_inflight torn).self =
        if_cases (λ (w : Turn). Latched code start w.self) t.self.write_inflight _ _ (λ e. p)
          (λ e. p) in
      if_cases (λ (w : Turn). Latched code start w.self) t.self.torn_down _ _ (λ e. p)
        (λ e.
          if_cases (λ (w : Turn). Latched code start w.self) (fold_inflight torn).self.epoch_retired
            _ _ (λ f. q) (λ f. q))

  read_error-Latched :
      (t : Turn) (r : Read) (ec : ErrorCode)
      → Latched code start t.self
      → Latched code start (read_error t r ec).self
  unfolding read_error
  read_error-Latched t r closed p = teardown-Latched t _ p
  read_error-Latched t r timeout p = teardown-Latched t _ p
  read_error-Latched t r operation_aborted p = teardown-Latched t _ p
  read_error-Latched t r bad_frame_payload p = teardown-Latched t _ p
  read_error-Latched t r violation p = teardown-Latched t _ p
  read_error-Latched t r other p = teardown-Latched t _ p
  read_error-Latched t r success p = on_frame-Latched t r p
  read_error-Latched t r message_too_big p =
      let l = latch_close t too_big false in
      if_cases (λ (w : Turn). Latched code start w.self) l.1 _ _
        (λ e. latch_close-Latched code start t too_big false p)
        (λ e. teardown-Latched t t.self.close_code p)

  on_read-Latched :
      (t : Turn) (r : Read) → Latched code start t.self → Latched code start (on_read t r).self
  unfolding on_read
  on_read-Latched t r p =
      if_cases (λ (w : Turn). Latched code start w.self) t.self.torn_down _ _ (λ e. p)
        (λ e. read_error-Latched t r r.ec p)

  on_write-Latched :
      (t : Turn) (ec : ErrorCode)
      → Latched code start t.self
      → Latched code start (on_write t ec).self
  unfolding on_write sample_send_lag
  on_write-Latched t ec p =
      let P = λ (w : Turn). Latched code start w.self in
      let sampled =
        sample_send_lag (record t { self = record t.self { write_inflight = false } }) in
      if_cases P t.self.torn_down _ _ (λ e. p)
        (λ e.
          if_cases P (is_success ec) _ _ (λ f. pump-Latched code start sampled p)
            (λ f. teardown-Latched sampled (own_or sampled (write_verdict ec)) p))

  react-Latched :
      (t : Turn) (e : Event) → Latched code start t.self → Latched code start (react t e).self
  unfolding react on_close_sent on_drained drain_read on_grace drain_transport
  react-Latched t (read_done r) p = on_read-Latched t r p
  react-Latched t (write_done ec) p = on_write-Latched t ec p
  react-Latched t (report m) p = deliver_report-Latched code start t m p
  react-Latched t (tick_of_book m) p = deliver_tob-Latched code start t m p
  react-Latched t (close c) p = begin_close-Latched code start t c p
  react-Latched t (close_sent err) p =
      if_cases (λ (w : Turn). Latched code start w.self) err _ _
        (λ e. teardown-Latched t t.self.close_code p) (λ e. p)
  react-Latched t (drained err) p =
      if_cases (λ (w : Turn). Latched code start w.self) err _ _
        (λ e. teardown-Latched t t.self.close_code p) (λ e. p)
  react-Latched t (grace err) p =
      if_cases (λ (w : Turn). Latched code start w.self) (err || t.self.torn_down) _ _ (λ e. p)
        (λ e. p)
  react-Latched t drain p =
      if_cases (λ (w : Turn). Latched code start w.self) t.self.torn_down _ _ (λ e. p) (λ e. p)

  -- Whatever the session is told, a code that is latched in a window stays so until another is opened.
  pub run-Latched :
      (s : Session) (es : List (ServerImpl × Event))
      → Latched code start s
      → Latched code start (run s es)
  unfolding run
  run-Latched s [] p = p
  run-Latched s ((srv, e) ∷ es) p =
      let t : Turn = record { srv = srv; self = s } in
      run-Latched (react t e).self es (react-Latched t e p)
