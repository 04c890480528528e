-- ===== src/Session/Pairing/Life.antt =====
-- The service times of a session through its commands, its completions and its life
-- (cpp/src/session.cpp, cpp/src/session_close.cpp).
use market_maker_proto.Prelude.{
  ℕ, ◌≡◌, refl, true, false, not, ◌||◌, ◌==◌, ltb, if_cases, List, [], ◌∷◌, length, All, inc_u64,
}
use market_maker_proto.Prelude.Int.{ℤ, ◌-ℤ◌}
use market_maker_proto.Prelude.Text.{Bytes}
use market_maker_proto.Types.{msg_too_large, stale_epoch}
use market_maker_proto.Protocol.{InMsg, new_order, cancel_order}
use market_maker_proto.Session.State.{
  Session, ServerImpl, Turn, Decoded, failed, decoded, read_next, steady_ns, tick, protocol_error,
  too_big,
}
use market_maker_proto.Session.Events.{sample_send_lag}
use market_maker_proto.Session.Close.{
  retire_epoch, latch_close, fold_inflight, teardown, drain_read, drain_transport, on_drained,
  on_close_sent, on_grace,
}
use market_maker_proto.Session.Commands.{
  make_reject, narrate_command, serve, on_command, on_decoded, on_message, seq_of, epoch_of,
  max_inbound_msg_bytes,
}
use market_maker_proto.Session.Reads.{
  Read, ErrorCode, success, closed, timeout, operation_aborted, message_too_big, bad_frame_payload,
  violation, other, on_frame, read_error, on_read, on_write, is_success, own_or, write_verdict,
}
use market_maker_proto.Session.Runs.{
  Event, read_done, write_done, report, tick_of_book, close, close_sent, drained, drain, grace,
  react, run,
}
use market_maker_proto.Session.Pairing.{
  is_ack, Paired, Steady, Steady-Paired, pump-Paired, begin_close-Paired, latch_close-Steady,
}
use market_maker_proto.Session.Pairing.Handlers.{
  push_reject-Paired, deliver_report-Paired, deliver_tob-Paired, report_new-Paired,
  report_cancel-Paired, on_cancel_acks_none,
}

narrate_command-Paired :
    (t : Turn) (service : ℤ) → Paired t.self → Paired (narrate_command t service).self
narrate_command-Paired t service p =
    if_cases (λ (w : Turn). Paired w.self) t.srv.cfg.telemetry_verbose _ _ (λ e. p) (λ e. p)

serve-Paired :
    (t : Turn) (m : InMsg) (arrival e1 : ℤ) → Paired t.self → Paired (serve t m arrival e1).self
unfolding serve
serve-Paired t (new_order m) arrival e1 p =
    narrate_command-Paired _ (steady_ns t.srv -ℤ e1)
      (report_new-Paired _ (steady_ns t.srv -ℤ e1) _ p)
serve-Paired t (cancel_order m) arrival e1 p =
    narrate_command-Paired _ (steady_ns t.srv -ℤ e1)
      (report_cancel-Paired _ _ (on_cancel_acks_none t.srv.engine t.self.epoch m) p)

on_command-Paired :
    (t : Turn) (m : InMsg) (arrival e1 : ℤ)
    → Paired t.self
    → Paired (on_command t m arrival e1).self
unfolding on_command
on_command-Paired t m arrival e1 p =
    let P = λ (w : Turn). Paired w.self in
    let expected : Turn = record t {
      self = record t.self { in_seq_expected = inc_u64 t.self.in_seq_expected };
    } in
    if_cases P (not (seq_of m == t.self.in_seq_expected)) _ _
      (λ e. begin_close-Paired t protocol_error p)
      (λ e.
        if_cases P (not (epoch_of m == t.self.epoch)) _ _
          (λ f. push_reject-Paired expected _ stale_epoch p)
          (λ f. serve-Paired expected m arrival e1 p))

on_decoded-Paired :
    (t : Turn) (d : Decoded) (arrival : ℤ) → Paired t.self → Paired (on_decoded t d arrival).self
on_decoded-Paired t (failed err) arrival p =
    pump-Paired _ (push_reject-Paired t (make_reject [] err.code err.detail) err.code p)
on_decoded-Paired t (decoded m) arrival p =
    pump-Paired _ (on_command-Paired (record t { srv = tick t.srv }) m arrival (steady_ns t.srv) p)

on_message-Paired :
    (t : Turn) (text : Bytes) (arrival : ℤ)
    → Paired t.self
    → Paired (on_message t text arrival).self
unfolding on_message
on_message-Paired t text arrival p =
    if_cases (λ (w : Turn). Paired w.self) (ltb max_inbound_msg_bytes (length text)) _ _
      (λ e. pump-Paired _ (push_reject-Paired t _ msg_too_large p))
      (λ e. on_decoded-Paired t (t.srv.codec.decode text) arrival p)

on_frame-Paired : (t : Turn) (r : Read) → Paired t.self → Paired (on_frame t r).self
unfolding on_frame read_next
on_frame-Paired t r p =
    let P = λ (w : Turn). Paired w.self in
    let arrived : Turn = record t { srv = tick t.srv } in
    if_cases P t.self.closing _ _ (λ e. p)
      (λ e.
        if_cases P r.binary _ _ (λ f. begin_close-Paired arrived protocol_error p)
          (λ f. on_message-Paired arrived r.frame (steady_ns t.srv) p))

retire_epoch-Steady : (t : Turn) → Steady t.self (retire_epoch t).self
unfolding retire_epoch
retire_epoch-Steady t =
    if_cases (λ (w : Turn). Steady t.self w.self) t.self.epoch_retired _ _ (λ e. (refl, refl))
      (λ e. (refl, refl))

teardown-Paired : (t : Turn) (code : ℕ) → Paired t.self → Paired (teardown t code).self
unfolding teardown sample_send_lag
teardown-Paired t code p =
    let torn : Turn = record t { self = record t.self { torn_down = true } } in
    let q : Paired (fold_inflight torn).self =
      if_cases (λ (w : Turn). Paired w.self) t.self.write_inflight _ _ (λ e. p) (λ e. p) in
    if_cases (λ (w : Turn). Paired w.self) t.self.torn_down _ _ (λ e. p)
      (λ e.
        Steady-Paired (fold_inflight torn).self (retire_epoch (fold_inflight torn)).self
          (retire_epoch-Steady (fold_inflight torn)) q)

read_error-Paired :
    (t : Turn) (r : Read) (ec : ErrorCode) → Paired t.self → Paired (read_error t r ec).self
unfolding read_error
read_error-Paired t r closed p = teardown-Paired t _ p
read_error-Paired t r timeout p = teardown-Paired t _ p
read_error-Paired t r operation_aborted p = teardown-Paired t _ p
read_error-Paired t r bad_frame_payload p = teardown-Paired t _ p
read_error-Paired t r violation p = teardown-Paired t _ p
read_error-Paired t r other p = teardown-Paired t _ p
read_error-Paired t r success p = on_frame-Paired t r p
read_error-Paired t r message_too_big p =
    let l = latch_close t too_big false in
    if_cases (λ (w : Turn). Paired w.self) l.1 _ _
      (λ e. Steady-Paired t.self l.0.self (latch_close-Steady t too_big false) p)
      (λ e. teardown-Paired t t.self.close_code p)

on_read-Paired : (t : Turn) (r : Read) → Paired t.self → Paired (on_read t r).self
unfolding on_read
on_read-Paired t r p =
    if_cases (λ (w : Turn). Paired w.self) t.self.torn_down _ _ (λ e. p)
      (λ e. read_error-Paired t r r.ec p)

on_write-Paired : (t : Turn) (ec : ErrorCode) → Paired t.self → Paired (on_write t ec).self
unfolding on_write sample_send_lag
on_write-Paired t ec p =
    let P = λ (w : Turn). Paired w.self in
    let sampled = sample_send_lag (record t { self = record t.self { write_inflight = false } }) in
    if_cases P t.self.torn_down _ _ (λ e. p)
      (λ e.
        if_cases P (is_success ec) _ _ (λ f. pump-Paired sampled p)
          (λ f. teardown-Paired sampled (own_or sampled (write_verdict ec)) p))

-- What Session::deliver_report asserts: the server delivers no order's ack, those of a session's own
-- orders being its answers.
abbrev pub Foreign : Event → Type 0
Foreign (report m) = is_ack m ≡ false
Foreign (read_done r) = Unit
Foreign (write_done ec) = Unit
Foreign (tick_of_book m) = Unit
Foreign (close code) = Unit
Foreign (close_sent err) = Unit
Foreign (drained err) = Unit
Foreign (grace err) = Unit
Foreign drain = Unit

react-Paired : (t : Turn) (e : Event) → Foreign e → Paired t.self → Paired (react t e).self
unfolding react on_close_sent on_drained drain_read on_grace drain_transport
react-Paired t (read_done r) n p = on_read-Paired t r p
react-Paired t (write_done ec) n p = on_write-Paired t ec p
react-Paired t (report m) n p = deliver_report-Paired t m n p
react-Paired t (tick_of_book m) n p = deliver_tob-Paired t m p
react-Paired t (close code) n p = begin_close-Paired t code p
react-Paired t (close_sent err) n p =
    if_cases (λ (w : Turn). Paired w.self) err _ _ (λ e. teardown-Paired t t.self.close_code p)
      (λ e. p)
react-Paired t (drained err) n p =
    if_cases (λ (w : Turn). Paired w.self) err _ _ (λ e. teardown-Paired t t.self.close_code p)
      (λ e. p)
react-Paired t (grace err) n p =
    if_cases (λ (w : Turn). Paired w.self) (err || t.self.torn_down) _ _ (λ e. p) (λ e. p)
react-Paired t drain n p =
    if_cases (λ (w : Turn). Paired w.self) t.self.torn_down _ _ (λ e. p) (λ e. p)

-- The service times pair up with the order acks. From a session that holds as many service times as
-- it has order acks queued, as a fresh one does, after any sequence of events in which the server
-- delivers no order ack, it does so again: whatever is rejected, conflated, discarded or closed in
-- between, the pump pops no order ack without taking a service time for it, and none is left over.
pub run-Paired :
    (s : Session) (es : List (ServerImpl × Event))
    → All (λ x. Foreign x.1) es
    → Paired s
    → Paired (run s es)
unfolding run
run-Paired s [] a p = p
run-Paired s ((srv, e) ∷ es) (n, a) p =
    let t : Turn = record { srv = srv; self = s } in
    run-Paired (react t e).self es a (react-Paired t e n p)
